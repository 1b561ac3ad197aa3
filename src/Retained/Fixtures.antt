-- ===== src/Retained/Fixtures.antt =====
-- A small stand-in for Python's json on a table of values, for the examples: the line of a value is
-- the letter of its place in the table.
use kenaz_ml.Prelude.{
  ℕ, suc, ◌+◌, ◌-◌, string_eq, ◌==◌, nat_beq, Bool, true, false, ◌&&◌, Option, none, some, List, [],
  ◌∷◌, ◌≡◌, refl, sym, subst, ap, ◌∙◌, arith, Text, inl, inr, Bool-cases, if◌then◌else◌, get_elem?,
}
use kenaz_ml.Registry.Json.{
  ℤ, pos, Real, finite, Json, integer, real, string, array, object, Items, nil, cons, Fields, end,
  field,
}
use kenaz_ml.Retained.{JsonLines, IsFaithfulJson, all_white}
use kenaz_ml.Retained.Lines.{some_injective}

abbrev same_int : ℤ → ℤ → Bool
same_int (pos m) (pos n) = nat_beq m n
same_int _ _ = false

abbrev same_real : Real → Real → Bool
same_real (finite m false s) (finite n false t) = same_int m n && s == t
same_real _ _ = false

abbrev mutual
  same : Json → Json → Bool
  same (integer m) (integer n) = same_int m n
  same (real x) (real y) = same_real x y
  same (string s) (string t) = s == t
  same (array xs) (array ys) = same_items xs ys
  same (object xs) (object ys) = same_fields xs ys
  same _ _ = false

  same_items : Items → Items → Bool
  same_items nil nil = true
  same_items (cons v xs) (cons w ys) = same v w && same_items xs ys
  same_items _ _ = false

  same_fields : Fields → Fields → Bool
  same_fields end end = true
  same_fields (field k v xs) (field l w ys) = k == l && (same v w && same_fields xs ys)
  same_fields _ _ = false

same_int-eq : (m n : ℤ) → same_int m n ≡ true → m ≡ n
same_int-eq (pos m) (pos n) e = ground (arith, e)
same_int-eq _ _ e = absurd (cc e)

same_real-eq : (x y : Real) → same_real x y ≡ true → x ≡ y
same_real-eq (finite m false s) (finite n false t) e =
    ground (arith, e, same_int-eq m n, string_eq.beq_iff s t)
same_real-eq _ _ e = absurd (cc e)

mutual
  same-eq : (v w : Json) → same v w ≡ true → v ≡ w
  same-eq (integer m) (integer n) e = ap integer (same_int-eq m n e)
  same-eq (real x) (real y) e = ap real (same_real-eq x y e)
  same-eq (string s) (string t) e = ap string ((string_eq.beq_iff s t).0 e)
  same-eq (array xs) (array ys) e = ap array (same_items-eq xs ys e)
  same-eq (object xs) (object ys) e = ap object (same_fields-eq xs ys e)
  same-eq _ _ e = absurd (cc e)

  same_items-eq : (xs ys : Items) → same_items xs ys ≡ true → xs ≡ ys
  same_items-eq nil nil e = refl
  same_items-eq (cons v xs) (cons w ys) e = ground (arith, e, same-eq v w, same_items-eq xs ys)
  same_items-eq _ _ e = absurd (cc e)

  same_fields-eq : (xs ys : Fields) → same_fields xs ys ≡ true → xs ≡ ys
  same_fields-eq end end e = refl
  same_fields-eq (field k v xs) (field l w ys) e =
      ground (arith, e, string_eq.beq_iff k l, same-eq v w, same_fields-eq xs ys)
  same_fields-eq _ _ e = absurd (cc e)

abbrev counted : Option ℕ → Option ℕ
counted none = none
counted (some i) = some (suc i)

abbrev place_of : Json → List Json → Option ℕ
place_of v [] = none
place_of v (w ∷ table) = if same v w then some 0 else counted (place_of v table)

counted-some : (o : Option ℕ) (i : ℕ) → counted o ≡ some i → (j : ℕ) × (o ≡ some j) × (i ≡ suc j)
counted-some none i e = absurd (cc e)
counted-some (some j) i e = (j, refl, sym (some_injective e))

place_of-get :
    (v : Json) (table : List Json) (i : ℕ) → place_of v table ≡ some i → get_elem? table i ≡ some v
place_of-get v [] i e = absurd (cc e)
place_of-get v (w ∷ table) i e = elim (Bool-cases (same v w)) [
  | inl here ↦ ground (arith, e, here, same-eq v w here)
  | inr there ↦
      let (j, found, at) = counted-some (place_of v table) i (rw there at e) in
      rw at (place_of-get v table j found)
]

abbrev letter : Option ℕ → Option Text
letter none = none
letter (some i) = some ((i + 65) ∷ [])

abbrev valued : List Json → Text → Option Json
valued table (b ∷ []) = get_elem? table (b - 65)
valued table _ = none

abbrev pub codec_of : List Json → JsonLines
codec_of table = record {
  loads = valued table;
  dumps = λ v. letter (place_of v table);
  is_blank = all_white;
  float_of_int = λ n. none;
  int_of_text = λ s. if s == "1" then some (pos 1) else if s == "2" then some (pos 2) else none;
  text_of_int = λ n. if same_int n (pos 1) then "1" else if same_int n (pos 2) then "2" else "3";
}

back : (i : ℕ) → i + 65 - 65 ≡ i
back i = omega arith

valued-letter :
    (table : List Json) (v : Json) (place : Option ℕ) (line : Text)
    → place_of v table ≡ place
    → letter place ≡ some line
    → (valued table line ≡ some v) × (all_white line ≡ false)
valued-letter table v none line p e = absurd (cc e)
valued-letter table v (some i) line p e =
    subst (λ line. (valued table line ≡ some v) × (all_white line ≡ false)) (some_injective e)
      (ap (get_elem? table) (back i) ∙ place_of-get v table i p, ground arith)

pub codec_of-IsFaithful : (table : List Json) → IsFaithfulJson (codec_of table)
codec_of-IsFaithful table = record {
  loads-dumps = λ v line e. (valued-letter table v _ line refl e).0;
  not_blank = λ v line e. (valued-letter table v _ line refl e).1;
  not_white = λ v line e. (valued-letter table v _ line refl e).1;
}
