-- ===== src/Dispatch/Table/Rings.antt =====
-- The bounds of the latency rings of advice/dispatch.py.
use kenaz_ml.Prelude.{
  ℕ, zero, suc, ◌+◌, ◌-◌, ◌≤◌, String, string_eq, ◌==◌, List, [], ◌∷◌, ◌++◌, ◌≡◌, refl, sym, ◌∙◌,
  arith, if◌then◌else◌, leb, length, drop, length-append, length-drop, Bool-cases, inl, inr,
}
use mathlib.Core.List.{append-nil, append_assoc}
use kenaz_ml.Dict.{Dict, get}
use kenaz_ml.Dict.Laws.{get-put}
use kenaz_ml.Dispatch.{DispatchEntry}
use kenaz_ml.Dispatch.Table.{
  DispatchTable, push_ring, append_ring, ring_or_empty, record_latency, latency_samples,
  latency_ring_size,
}

drop-append :
    {A : Type 0} (n : ℕ) (xs ys : List A) → n ≤ length xs → drop n (xs ++ ys) ≡ drop n xs ++ ys
drop-append zero xs ys h = refl
drop-append (suc n) [] ys h = absurd (omega (arith, h))
drop-append (suc n) (x ∷ xs) ys h = drop-append n xs ys (omega (arith, h))

drop-drop : {A : Type 0} (m n k : ℕ) (xs : List A) → k ≡ n + m → drop m (drop n xs) ≡ drop k xs
drop-drop m zero k xs e = let same : k ≡ m = omega (arith, e) in rw same refl
drop-drop zero (suc n) zero [] e = refl
drop-drop zero (suc n) (suc k) [] e = refl
drop-drop (suc m) (suc n) zero [] e = refl
drop-drop (suc m) (suc n) (suc k) [] e = refl
drop-drop m (suc n) zero (x ∷ xs) e = absurd (omega (arith, e))
drop-drop m (suc n) (suc k) (x ∷ xs) e = drop-drop m n k xs (omega (arith, e))

-- The last `n` entries of a list.
abbrev pub last_of : ℕ → List ℕ → List ℕ
last_of n xs = drop (length xs - n) xs

push_ring-last_of : (n : ℕ) (xs : List ℕ) → push_ring n xs ≡ last_of n xs
unfolding push_ring
push_ring-last_of n xs = elim (Bool-cases (leb (length xs) n)) [
  | inl e ↦ let z : length xs - n ≡ 0 = ground arith in rw (e, z) refl
  | inr e ↦ rw e refl
]

last_of-append :
    (n : ℕ) (xs : List ℕ) (x : ℕ) → last_of n (last_of n xs ++ x ∷ []) ≡ last_of n (xs ++ x ∷ [])
last_of-append n xs x =
    let k = length xs - n in
    let joined = drop-append k xs (x ∷ []) (omega arith) in
    rw (sym joined) (
      drop-drop (length (drop k (xs ++ x ∷ [])) - n) k (length (xs ++ x ∷ []) - n) (xs ++ x ∷ [])
        (omega (arith, length-drop k (xs ++ x ∷ []), length-append xs (x ∷ []))))

append_ring_lem :
    (elapsed : ℕ) (past : List ℕ)
    → append_ring elapsed (last_of latency_ring_size past)
      ≡ last_of latency_ring_size (past ++ elapsed ∷ [])
unfolding append_ring
append_ring_lem elapsed past =
    push_ring-last_of 512 (last_of 512 past ++ elapsed ∷ []) ∙ last_of-append 512 past elapsed

-- The samples of one kind, in the order of their recording.
abbrev pub recorded : String → List (String × ℕ) → List ℕ
recorded kind [] = []
recorded kind ((key, elapsed) ∷ events) =
    if key == kind then elapsed ∷ recorded kind events else recorded kind events

module _ {F M : Type 0} where
  abbrev pub record_each : List (String × ℕ) → DispatchTable F M → DispatchTable F M
  record_each [] table = table
  record_each ((key, elapsed) ∷ events) table =
      record_each events (record_latency key elapsed table)

  latency_samples-record :
      (kind key : String) (elapsed : ℕ) (table : DispatchTable F M)
      → latency_samples kind (record_latency key elapsed table) ≡ (
          if key == kind
          then append_ring elapsed (latency_samples kind table)
          else latency_samples kind table)
  unfolding latency_samples record_latency
  latency_samples-record kind key elapsed table = ground (
    arith,
    get-put table.latency key kind (append_ring elapsed (ring_or_empty (get table.latency key))),
    string_eq.beq_iff key kind,
  )

  record_each_lem :
      (kind : String) (events : List (String × ℕ)) (past : List ℕ) (table : DispatchTable F M)
      → latency_samples kind table ≡ last_of latency_ring_size past
      → latency_samples kind (record_each events table)
        ≡ last_of latency_ring_size (past ++ recorded kind events)
  record_each_lem kind [] past table h = rw (append-nil past) h
  record_each_lem kind ((key, elapsed) ∷ events) past table h = elim (Bool-cases (key == kind)) [
    | inl e ↦
        rw (e, sym (append_assoc past (elapsed ∷ []) (recorded kind events)))
          (record_each_lem kind events (past ++ elapsed ∷ []) (record_latency key elapsed table) (
            cc (latency_samples-record kind key elapsed table, e, h, append_ring_lem elapsed past)))
    | inr e ↦ rw e (
        record_each_lem kind events past (record_latency key elapsed table)
          (cc (latency_samples-record kind key elapsed table, e, h)))
  ]

  -- The samples that a new table keeps of a kind are the last 512 of those recorded for that kind,
  -- in their order, whatever was recorded for other kinds in between.
  pub latency_window :
      (snapshot : Dict String (DispatchEntry F M)) (kind : String) (events : List (String × ℕ))
      → latency_samples kind (record_each events (record { snapshot = snapshot; latency = [] }))
        ≡ last_of latency_ring_size (recorded kind events)
  unfolding latency_samples get
  latency_window snapshot kind events =
      record_each_lem kind events [] (record { snapshot = snapshot; latency = [] }) refl
