-- ===== src/Dispatch/Serve/Refusals.antt =====
-- How advice/dispatch.py ends when it does not serve.
use kenaz_ml.Prelude.{
  ℕ, String, string_eq, Bool, not, ◌&&◌, Option, none, some, List, ◌≡◌, ◌≢◌, true, inl, inr, refl,
  arith, Bool-cases,
}
use kenaz_ml.Dict.{Dict, get}
use kenaz_ml.Registry.Manifest.{FeatureContract}
use kenaz_ml.Dispatch.{
  BackendAnswer, Answered, answer, refuses, fails, Preflight, absent, passes, breaks, stops,
  Backend, DispatchEntry, RecommendRequest, supported_versions, is_some,
}
use kenaz_ml.Dispatch.Serve.{
  Outcome, serves, refused, key_error, preflight_error, validation_error, respond, fits_response,
  member, same_names, confidence_of, answers_one, check_answer, on_answer, after_preflight,
  finite_vector, on_vector, serve_with, other_kind, on_server, on_entry, dispatch,
}
use kenaz_ml.Dispatch.Serve.Checks.{vector_complete}

-- The outcome is a response or a typed refusal.
abbrev pub IsTyped : Outcome → Type 0
IsTyped (serves r) = Unit
IsTyped (refused reason) = Unit
IsTyped key_error = ⊥
IsTyped preflight_error = ⊥
IsTyped validation_error = ⊥

module _ {F : Type 0} where
  check_answer-IsTyped :
      (kind : String) (contract : FeatureContract) (server : Backend F) (given : BackendAnswer)
      (c : Option ℕ)
      → fits_response server ≡ true
      → IsTyped (check_answer kind contract server given c)
  unfolding check_answer respond
  check_answer-IsTyped kind contract server given none fits = tt
  check_answer-IsTyped kind contract server given (some n) fits =
      elim (Bool-cases (answers_one given)) [ inl e ↦ rw (e, fits) tt | inr e ↦ rw e tt ]

  on_answer-IsTyped :
      (kind : String) (contract : FeatureContract) (server : Backend F) (result : Answered)
      → fits_response server ≡ true
      → IsTyped (on_answer kind contract server result)
  unfolding on_answer
  on_answer-IsTyped kind contract server (refuses reason) fits = tt
  on_answer-IsTyped kind contract server fails fits = tt
  on_answer-IsTyped kind contract server (answer given) fits =
      check_answer-IsTyped kind contract server given (confidence_of given.confidence) fits

  after_preflight-IsTyped :
      (p : Preflight) (kind : String) (contract : FeatureContract) (server : Backend F)
      (vector : List F)
      → p ≢ breaks
      → fits_response server ≡ true
      → IsTyped (after_preflight p kind contract server vector)
  unfolding after_preflight
  after_preflight-IsTyped breaks kind contract server vector ne fits = absurd (ne refl)
  after_preflight-IsTyped (stops reason) kind contract server vector ne fits = tt
  after_preflight-IsTyped absent kind contract server vector ne fits =
      on_answer-IsTyped kind contract server (server.answer vector) fits
  after_preflight-IsTyped passes kind contract server vector ne fits =
      on_answer-IsTyped kind contract server (server.answer vector) fits

-- The installed backend, if there is one, has no `preflight` that raises anything but a refusal,
-- and a name and a provenance that the response admits.
abbrev pub Prepared : {F : Type 0} → Option (Backend F) → Type 0
Prepared none = Unit
Prepared (some server) = (server.preflight ≢ breaks) × (fits_response server ≡ true)

module _ {F : Type 0} (isfinite : F → Bool) where
  serve_with-IsTyped :
      (kind : String) (request : RecommendRequest F) (contract : Option FeatureContract)
      (server : Backend F)
      → Prepared (some server)
      → IsTyped (serve_with isfinite kind request contract server)
  unfolding serve_with on_vector same_names
  serve_with-IsTyped kind request none server ne = tt
  serve_with-IsTyped kind request (some c) server ne =
      elim (Bool-cases (same_names request.features c.names)) [
        | inr bad ↦ rw bad tt
        | inl fits ↦
            let (vector, e) = vector_complete request.features c.names (ground (arith, fits)) in
            rw (fits, e)
              (elim (Bool-cases (finite_vector isfinite vector)) [
                | inl ok ↦
                    rw ok (after_preflight-IsTyped server.preflight kind c server vector ne.0 ne.1)
                | inr bad ↦ rw bad tt
              ])
      ]

-- The entry's installed backend, if there is an entry, is prepared.
abbrev pub EntryPrepared : {F M : Type 0} → Option (DispatchEntry F M) → Type 0
EntryPrepared none = Unit
EntryPrepared (some entry) = Prepared entry.server

module _ {F M : Type 0} (isfinite : F → Bool) where
  on_server-IsTyped :
      (entry : DispatchEntry F M) (kind : String) (request : RecommendRequest F)
      (s : Option (Backend F))
      → Prepared s
      → IsTyped (on_server isfinite entry kind request s).0
  unfolding on_server
  on_server-IsTyped entry kind request none p = tt
  on_server-IsTyped entry kind request (some server) p =
      serve_with-IsTyped isfinite kind request entry.contract server p

  on_entry-IsTyped :
      (kind : String) (request : RecommendRequest F) (found : Option (DispatchEntry F M))
      → EntryPrepared found
      → IsTyped (on_entry isfinite kind request found).0
  unfolding on_entry
  on_entry-IsTyped kind request none p = tt
  on_entry-IsTyped kind request (some entry) p =
      elim (Bool-cases (other_kind kind request.kind_id)) [
        | inl e ↦ rw e tt
        | inr e ↦
            elim (Bool-cases (
              is_some entry.contract
              && not (member request.feature_contract_version (supported_versions entry)))) [
                | inl v ↦ rw (e, v) tt
                | inr v ↦ rw (e, v) (on_server-IsTyped entry kind request entry.server p)
              ]
      ]

  -- When the preflight of the kind's backend raises nothing but refusals, and the backend has a
  -- name and a provenance that the response admits, `dispatch` ends in a response or a typed
  -- refusal, whatever the request: no feature that it reads is missing.
  pub dispatch-IsTyped :
      (snapshot : Dict String (DispatchEntry F M)) (kind : String) (request : RecommendRequest F)
      → EntryPrepared (get snapshot kind)
      → IsTyped (dispatch isfinite snapshot kind request).0
  unfolding dispatch
  dispatch-IsTyped snapshot kind request p = on_entry-IsTyped kind request (get snapshot kind) p
