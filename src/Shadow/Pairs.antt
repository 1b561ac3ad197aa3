-- ===== src/Shadow/Pairs.antt =====
-- The join pairs a label row with one shadow record at most, by the exact key or, where the shadow
-- record carries none, by the vector.
use kenaz_ml.Prelude.{
  ℕ, suc, String, string_eq, nat_eq, Bool, true, false, not, ◌&&◌, Option, none, some, List, [],
  ◌∷◌, ◌++◌, ◌≡◌, refl, sym, ap, subst, length-append, ◌∙◌, ◌⊎◌, inl, inr, arith, if◌then◌else◌,
  length, All, get_elem?, Option-cases, Bool-cases,
}
use mathlib.Core.List.{append_assoc}
use kenaz_ml.Registry.Json.{ℤ}
use kenaz_ml.LabelLog.{int_eq, Record}
use kenaz_ml.LabelLog.Rows.{is_member}
use kenaz_ml.Shadow.{ShadowPrediction}
use kenaz_ml.Shadow.Join.{
  JoinedDecision, Joining, placed, sorted_by_ts, exact_key, has_key, pair_up, first_unused,
  exact_step, exact_pass, is_candidate, is_nearer, nearest, fallback_pass, join_shadow_to_labels,
}

-- No number occurs twice.
abbrev pub IsDistinct : List ℕ → Type 0
IsDistinct [] = Unit
IsDistinct (i ∷ is) = (is_member is i ≡ false) × IsDistinct is

-- The places of the label rows that are paired, the last pair first.
unfoldable pub places_onto : List JoinedDecision → List ℕ → List ℕ
places_onto [] is = is
places_onto (pair ∷ pairs) is = places_onto pairs (pair.place ∷ is)

places_onto-append :
    (pairs : List JoinedDecision) (pair : JoinedDecision) (is : List ℕ)
    → places_onto (pairs ++ (pair ∷ [])) is ≡ pair.place ∷ places_onto pairs is
unfolding places_onto
places_onto-append [] pair is = refl
places_onto-append (first ∷ pairs) pair is = places_onto-append pairs pair (first.place ∷ is)

some_injective : {A : Type 0} {a b : A} → some a ≡ some b → a ≡ b
some_injective e = cc

and_left : (a b : Bool) → (a && b) ≡ true → a ≡ true
and_left a b e = ground (arith, e)

module _ (P : ℕ × Record → Type 0) where
  first_unused_lem :
      (used : List ℕ) (key : String × ℤ) (labels : List (ℕ × Record)) (item : ℕ × Record)
      → All P labels
      → first_unused used key labels ≡ some item
      → (is_member used item.0 ≡ false) × (has_key key item.1 ≡ true) × P item
  unfolding first_unused
  first_unused_lem used key [] item h e = ground (arith, e)
  first_unused_lem used key ((i, label) ∷ labels) item (first, rest) e =
      elim (Bool-cases (has_key key label && not (is_member used i))) [
        | inl taken ↦
            let found =
              sym (ap (λ t. if t then some (i, label) else first_unused used key labels) taken)
              ∙ e in
            subst (λ it. (is_member used it.0 ≡ false) × (has_key key it.1 ≡ true) × P it)
              (some_injective found) (ground (arith, taken), ground (arith, taken), first)
        | inr passed ↦ first_unused_lem used key labels item rest (ground (arith, e, passed))
      ]

  module _ (hash_of : Record → Option String) (session_of : Record → Option String) where
    nearest_lem :
        (used : List ℕ) (shadow : ShadowPrediction) (best : Option (ℕ × Record))
        (labels : List (ℕ × Record)) (item : ℕ × Record)
        → All P labels
        → nearest hash_of session_of used shadow best labels ≡ some item
        → (best ≡ some item) ⊎ ((is_candidate hash_of session_of used shadow item ≡ true) × P item)
    unfolding nearest
    nearest_lem used shadow best [] item h e = inl e
    nearest_lem used shadow best (first ∷ labels) item h e =
        elim (Bool-cases (
          is_candidate hash_of session_of used shadow first
          && is_nearer hash_of session_of shadow first best)) [
            | inl taken ↦
                let later =
                  sym (
                    ap
                      (λ t.
                        nearest hash_of session_of used shadow (if t then some first else best)
                          labels)
                      taken)
                  ∙ e in
                elim (nearest_lem used shadow (some first) labels item h.1 later) [
                  | inl found ↦ inr (
                      subst (λ it. (is_candidate hash_of session_of used shadow it ≡ true) × P it)
                        (some_injective found) (and_left _ _ taken, h.0))
                  | inr better ↦ inr better
                ]
            | inr passed ↦
                let later =
                  sym (
                    ap
                      (λ t.
                        nearest hash_of session_of used shadow (if t then some first else best)
                          labels)
                      passed)
                  ∙ e in
                nearest_lem used shadow best labels item h.1 later
          ]

-- The place of each label row.
abbrev AtPlace : List Record → ℕ × Record → Type 0
AtPlace labels item = get_elem? labels item.0 ≡ some item.1

get_elem?-append :
    (before : List Record) (label : Record) (labels : List Record)
    → get_elem? (before ++ (label ∷ labels)) (length before) ≡ some label
get_elem?-append [] label labels = refl
get_elem?-append (first ∷ before) label labels = get_elem?-append before label labels

placed-AtPlace :
    (i : ℕ) (before labels : List Record)
    → i ≡ length before
    → All (AtPlace (before ++ labels)) (placed i labels)
unfolding placed
placed-AtPlace i before [] e = tt
placed-AtPlace i before (label ∷ labels) e = (
  rw e (get_elem?-append before label labels),
  subst (λ all. All (AtPlace all) (placed (suc i) labels)) (append_assoc before (label ∷ []) labels)
      (placed-AtPlace (suc i) (before ++ (label ∷ [])) labels
        (omega (arith, e, length-append before (label ∷ [])))),
)

module _ (hash_of : Record → Option String) (session_of : Record → Option String)
    (labels : List Record) where
  -- The pair's label row stands at its place in the log and has the shadow record's exact key, or,
  -- for a shadow record without one, its vector hash, no other session, and a time within the
  -- tolerance.
  pub record IsPaired (pair : JoinedDecision) : Type 0 where
    pub at_place : get_elem? labels pair.place ≡ some pair.label
    pub reason :
        ((key : String × ℤ) × (exact_key pair.shadow ≡ some key) × (has_key key pair.label ≡ true))
        ⊎ ((exact_key pair.shadow ≡ none)
            × (is_candidate hash_of session_of [] pair.shadow (pair.place, pair.label) ≡ true))

  record IsJoining (s : Joining) : Type 0 where
    used : s.used ≡ places_onto s.joined []
    distinct : IsDistinct s.used
    paired : All IsPaired s.joined
    keyless : All (λ shadow. exact_key shadow ≡ none) s.fallback

  All-snoc :
      {A : Type 0} (P : A → Type 0) (xs : List A) (x : A) → All P xs → P x → All P (xs ++ (x ∷ []))
  All-snoc P [] x h p = (p, tt)
  All-snoc P (y ∷ ys) x h p = (h.0, All-snoc P ys x h.1 p)

  pair_up-IsJoining :
      (shadow : ShadowPrediction) (item : ℕ × Record) (s : Joining)
      → is_member s.used item.0 ≡ false
      → IsPaired (record { shadow = shadow; place = item.0; label = item.1 })
      → IsJoining s
      → IsJoining (pair_up shadow (some item) s)
  pair_up-IsJoining shadow item s free p h = record {
    used = ap (λ is. item.0 ∷ is) h.used ∙ sym (places_onto-append s.joined _ []);
    distinct = (free, h.distinct);
    paired = All-snoc IsPaired s.joined _ h.paired p;
    keyless = h.keyless;
  }

  exact_step-IsJoining :
      (shadow : ShadowPrediction) (key : Option (String × ℤ)) (s : Joining)
      → exact_key shadow ≡ key
      → IsJoining s
      → IsJoining (exact_step (placed 0 labels) shadow key s)
  exact_step-IsJoining shadow none s e h = record {
    used = h.used;
    distinct = h.distinct;
    paired = h.paired;
    keyless = All-snoc (λ sh. exact_key sh ≡ none) s.fallback shadow h.keyless e;
  }
  exact_step-IsJoining shadow (some key) s e h =
      elim (Option-cases (first_unused s.used key (placed 0 labels))) [
        | inl f ↦ rw f h
        | inr (item, f) ↦
            let (free, has, place) =
              first_unused_lem (AtPlace labels) s.used key (placed 0 labels) item
                (placed-AtPlace 0 [] labels refl) f in
            rw f (
              pair_up-IsJoining shadow item s free
                (record { at_place = place; reason = inl (key, e, has) }) h)
      ]

  exact_pass-IsJoining :
      (shadows : List ShadowPrediction) (s : Joining)
      → IsJoining s
      → IsJoining (exact_pass (placed 0 labels) shadows s)
  unfolding exact_pass
  exact_pass-IsJoining [] s h = h
  exact_pass-IsJoining (shadow ∷ shadows) s h =
      exact_pass-IsJoining shadows _ (exact_step-IsJoining shadow (exact_key shadow) s refl h)

  -- What was free of the used places is a candidate on its own.
  candidate_alone :
      (used : List ℕ) (shadow : ShadowPrediction) (item : ℕ × Record)
      → is_candidate hash_of session_of used shadow item ≡ true
      → (is_member used item.0 ≡ false) × (is_candidate hash_of session_of [] shadow item ≡ true)
  unfolding is_member
  candidate_alone used shadow item e = ground (arith, e)

  fallback_step-IsJoining :
      (shadow : ShadowPrediction) (s : Joining)
      → exact_key shadow ≡ none
      → IsJoining s
      → IsJoining
          (pair_up shadow (nearest hash_of session_of s.used shadow none (placed 0 labels)) s)
  fallback_step-IsJoining shadow s e h =
      elim (Option-cases (nearest hash_of session_of s.used shadow none (placed 0 labels))) [
        | inl f ↦ rw f h
        | inr (item, f) ↦
            elim (nearest_lem (AtPlace labels) hash_of session_of s.used shadow none
              (placed 0 labels) item (placed-AtPlace 0 [] labels refl) f) [
                | inl absent ↦ absurd (ground (arith, absent))
                | inr (fits, place) ↦
                    let (free, alone) = candidate_alone s.used shadow item fits in
                    rw f (
                      pair_up-IsJoining shadow item s free
                        (record { at_place = place; reason = inr (e, alone) }) h)
              ]
      ]

  fallback_pass-IsJoining :
      (shadows : List ShadowPrediction) (s : Joining)
      → All (λ shadow. exact_key shadow ≡ none) shadows
      → IsJoining s
      → IsJoining (fallback_pass hash_of session_of (placed 0 labels) shadows s)
  unfolding fallback_pass
  fallback_pass-IsJoining [] s keyless h = h
  fallback_pass-IsJoining (shadow ∷ shadows) s (first, rest) h =
      fallback_pass-IsJoining shadows _ rest (fallback_step-IsJoining shadow s first h)

  -- In the join no label row stands in two pairs; every pair's label row stands at its place in the
  -- log and has the shadow record's exact key, or the shadow record carries no exact key and the
  -- label row has its vector hash, no other session, and a time at most 120 seconds away.
  pub join_pairs :
      (shadows : List ShadowPrediction)
      → let pairs = join_shadow_to_labels hash_of session_of shadows labels in
        IsDistinct (places_onto pairs []) × All IsPaired pairs
  unfolding join_shadow_to_labels places_onto
  join_pairs shadows =
      let start : Joining = record { used = []; joined = []; fallback = [] } in
      let first =
        exact_pass-IsJoining (sorted_by_ts shadows) start
          (record { used = refl; distinct = tt; paired = tt; keyless = tt }) in
      let last = fallback_pass-IsJoining _ _ first.keyless first in
      (subst IsDistinct last.used last.distinct, last.paired)
