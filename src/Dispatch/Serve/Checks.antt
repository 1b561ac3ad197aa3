-- ===== src/Dispatch/Serve/Checks.antt =====
-- What holds of an answer that a backend of advice/dispatch.py gives and `dispatch` accepts.
use kenaz_ml.Prelude.{
  ℕ, ◌≤◌, String, string_eq, Bool, true, Option, none, some, List, [], ◌∷◌, ◌≡◌, ◌⊎◌, inl, inr,
  refl, ap, arith, Bool-cases, Option-cases,
}
use kenaz_ml.Dict.{Dict, get}
use kenaz_ml.Dict.Laws.{has-eq-get}
use kenaz_ml.Registry.Json.{pos, negsuc}
use kenaz_ml.Registry.Manifest.{FeatureContract}
use kenaz_ml.Dispatch.{
  Confidence, boolean, integer, other, BackendAnswer, Answered, answer, refuses, fails, Preflight,
  absent, passes, breaks, stops, Backend, RecommendRequest, RecommendResponse,
}
use kenaz_ml.Dispatch.Serve.{
  serves, same_names, all_posted, vector_of, confidence_of, answers_one, respond, response_of,
  fits_response, check_answer, on_answer, after_preflight, finite_vector, on_vector, serve_with,
}

serves_injective : {a b : RecommendResponse} → serves a ≡ serves b → a ≡ b
serves_injective h = cc

confidence_sound :
    (c : Confidence) (n : ℕ) → confidence_of c ≡ some n → (c ≡ integer (pos n)) × (n ≤ 100)
unfolding confidence_of
confidence_sound (boolean b) n h = cc
confidence_sound (integer (pos k)) n h = ground arith
confidence_sound (integer (negsuc k)) n h = cc
confidence_sound other n h = cc

module _ {F : Type 0} where
  -- Every posted name of the contract has its value, in the order of the contract.
  pub vector_complete :
      (features : Dict String F) (names : List String)
      → all_posted features names ≡ true
      → (vector : List F) × (vector_of features names ≡ some vector)
  unfolding all_posted vector_of
  vector_complete features [] h = ([], refl)
  vector_complete features (name ∷ names) h =
      let (vector, e) = vector_complete features names (ground arith) in
      elim (Option-cases (get features name)) [
        | inl gone ↦ absurd (ground (arith, has-eq-get features name))
        | inr (value, there) ↦ (value ∷ vector, ground (arith))
      ]

  -- A served answer: an integer confidence within its range and exactly one of the two answers.
  pub record GoodAnswer (kind : String) (contract : FeatureContract) (server : Backend F)
      (vector : List F) (r : RecommendResponse) : Type 0 where
    pub given : BackendAnswer
    pub answered : server.answer vector ≡ answer given
    pub confident : given.confidence ≡ integer (pos r.confidence)
    pub in_range : r.confidence ≤ 100
    pub one : answers_one given ≡ true
    pub fits : fits_response server ≡ true
    pub response : r ≡ response_of kind contract server given r.confidence

  check_answer_sound :
      (kind : String) (contract : FeatureContract) (server : Backend F) (given : BackendAnswer)
      (c : Option ℕ) (r : RecommendResponse)
      → check_answer kind contract server given c ≡ serves r
      → (c ≡ some r.confidence)
        × (answers_one given ≡ true)
        × (fits_response server ≡ true)
        × (r ≡ response_of kind contract server given r.confidence)
  unfolding check_answer respond response_of
  check_answer_sound kind contract server given none r h = cc
  check_answer_sound kind contract server given (some n) r h =
      elim (Bool-cases (answers_one given)) [
        | inl one ↦ elim (Bool-cases (fits_response server)) [
          | inl fits ↦
              let e = serves_injective (rw (one, fits) at h) in
              let c = ap (λ (x : RecommendResponse). x.confidence) e in
              (ap some c, one, fits, cc (e, c))
          | inr outside ↦ absurd (cc (rw (one, outside) at h))
        ]
        | inr two ↦ absurd (cc (rw two at h))
      ]

  on_answer_sound :
      (kind : String) (contract : FeatureContract) (server : Backend F) (vector : List F)
      (result : Answered) (r : RecommendResponse)
      → server.answer vector ≡ result
      → on_answer kind contract server result ≡ serves r
      → GoodAnswer kind contract server vector r
  unfolding on_answer
  on_answer_sound kind contract server vector (refuses reason) r e h = cc
  on_answer_sound kind contract server vector fails r e h = cc
  on_answer_sound kind contract server vector (answer given) r e h =
      let (c, one, fits, response) =
        check_answer_sound kind contract server given (confidence_of given.confidence) r h in
      let (confident, in_range) = confidence_sound given.confidence r.confidence c in
      record {
        given = given;
        answered = e;
        confident = confident;
        in_range = in_range;
        one = one;
        fits = fits;
        response = response;
      }

  after_preflight_sound :
      (p : Preflight) (kind : String) (contract : FeatureContract) (server : Backend F)
      (vector : List F) (r : RecommendResponse)
      → after_preflight p kind contract server vector ≡ serves r
      → ((p ≡ absent) ⊎ (p ≡ passes)) × GoodAnswer kind contract server vector r
  unfolding after_preflight
  after_preflight_sound (stops reason) kind contract server vector r h = cc
  after_preflight_sound breaks kind contract server vector r h = cc
  after_preflight_sound absent kind contract server vector r h =
      (inl refl, on_answer_sound kind contract server vector (server.answer vector) r refl h)
  after_preflight_sound passes kind contract server vector r h =
      (inr refl, on_answer_sound kind contract server vector (server.answer vector) r refl h)

module _ {F : Type 0} (isfinite : F → Bool) where
  -- The request's features are those of the contract, and their finite values in the order of the
  -- contract were put to the backend, which gave a good answer.
  pub record Answers (kind : String) (request : RecommendRequest F) (contract : FeatureContract)
      (server : Backend F) (r : RecommendResponse) : Type 0 where
    pub fits : same_names request.features contract.names ≡ true
    pub vector : List F
    pub ordered : vector_of request.features contract.names ≡ some vector
    pub finite : finite_vector isfinite vector ≡ true
    pub allowed : (server.preflight ≡ absent) ⊎ (server.preflight ≡ passes)
    pub good : GoodAnswer kind contract server vector r

  on_vector_sound :
      (kind : String) (contract : FeatureContract) (server : Backend F) (v : Option (List F))
      (r : RecommendResponse)
      → on_vector isfinite kind contract server v ≡ serves r
      → (vector : List F) × (v ≡ some vector)
        × (finite_vector isfinite vector ≡ true)
        × ((server.preflight ≡ absent) ⊎ (server.preflight ≡ passes))
        × GoodAnswer kind contract server vector r
  unfolding on_vector
  on_vector_sound kind contract server none r h = cc
  on_vector_sound kind contract server (some vector) r h =
      elim (Bool-cases (finite_vector isfinite vector)) [
        | inl ok ↦
            let (allowed, good) =
              after_preflight_sound server.preflight kind contract server vector r (rw ok at h) in
            (vector, refl, ok, allowed, good)
        | inr bad ↦ absurd (cc (rw bad at h))
      ]

  pub serve_with_sound :
      (kind : String) (request : RecommendRequest F) (contract : Option FeatureContract)
      (server : Backend F) (r : RecommendResponse)
      → serve_with isfinite kind request contract server ≡ serves r
      → (c : FeatureContract) × (contract ≡ some c) × Answers kind request c server r
  unfolding serve_with
  serve_with_sound kind request none server r h = cc
  serve_with_sound kind request (some c) server r h =
      elim (Bool-cases (same_names request.features c.names)) [
        | inl fits ↦
            let (vector, ordered, finite, allowed, good) =
              on_vector_sound kind c server (vector_of request.features c.names) r (rw fits at h) in
            (
              c,
              refl,
              record {
                fits = fits;
                vector = vector;
                ordered = ordered;
                finite = finite;
                allowed = allowed;
                good = good;
              },
            )
        | inr bad ↦ absurd (cc (rw bad at h))
      ]
