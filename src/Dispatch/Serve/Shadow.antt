-- ===== src/Dispatch/Serve/Shadow.antt =====
-- What advice/dispatch.py queues for scoring in shadow.
use kenaz_ml.Prelude.{
  String, string_eq, Bool, true, false, not, ◌&&◌, Option, none, some, List, ◌≡◌, inl, inr, refl,
  arith, Bool-cases, All, All-imp,
}
use kenaz_ml.Dict.{Dict, get}
use kenaz_ml.Registry.Manifest.{FeatureContract}
use kenaz_ml.Dispatch.{
  Backend, DispatchEntry, RecommendRequest, ShadowRecord, supported_versions, is_some,
}
use kenaz_ml.Dispatch.Serve.{
  member, same_names, vector_of, finite_vector, other_kind, on_server, on_entry, dispatch,
  record_shadow, shadow_vector,
}

module _ {F M : Type 0} (isfinite : F → Bool) where
  -- What is queued for scoring in shadow under an entry: the request's finite values in the order
  -- of the contract, for the entry's own model that serves nothing.
  pub record FromEntry (entry : DispatchEntry F M) (kind : String) (request : RecommendRequest F)
      (shadow : ShadowRecord F M) : Type 0 where
    pub contract : FeatureContract
    pub unserved : entry.server ≡ none
    pub published : entry.contract ≡ some contract
    pub supported : member request.feature_contract_version (supported_versions entry) ≡ true
    pub fits : same_names request.features contract.names ≡ true
    pub ordered : vector_of request.features contract.names ≡ some shadow.vector
    pub finite : finite_vector isfinite shadow.vector ≡ true
    pub model : entry.shadow_model ≡ some shadow.model
    pub named : shadow.kind_id ≡ kind

  -- The same of what `record_shadow` queues, before the entry's parts are known.
  record Queued (entry : DispatchEntry F M) (kind : String) (request : RecommendRequest F)
      (m : Option M) (c : Option FeatureContract) (shadow : ShadowRecord F M) : Type 0 where
    contract : FeatureContract
    published : c ≡ some contract
    fits : same_names request.features contract.names ≡ true
    ordered : vector_of request.features contract.names ≡ some shadow.vector
    finite : finite_vector isfinite shadow.vector ≡ true
    model : m ≡ some shadow.model
    named : shadow.kind_id ≡ kind

  shadow_vector-Queued :
      (entry : DispatchEntry F M) (kind : String) (request : RecommendRequest F) (m : M)
      (c : FeatureContract) (v : Option (List F))
      → same_names request.features c.names ≡ true
      → vector_of request.features c.names ≡ v
      → All
          (Queued entry kind request (some m) (some c))
          (shadow_vector isfinite entry kind request m v)
  shadow_vector-Queued entry kind request m c none fits e = tt
  shadow_vector-Queued entry kind request m c (some vector) fits e =
      elim (Bool-cases (finite_vector isfinite vector)) [
        | inl ok ↦ rw ok (
          record {
            contract = c;
            published = refl;
            fits = fits;
            ordered = e;
            finite = ok;
            model = refl;
            named = refl;
          },
          tt,
        )
        | inr bad ↦ rw bad tt
      ]

  record_shadow-Queued :
      (entry : DispatchEntry F M) (kind : String) (request : RecommendRequest F) (m : Option M)
      (c : Option FeatureContract)
      → All (Queued entry kind request m c) (record_shadow isfinite entry kind request m c)
  unfolding record_shadow
  record_shadow-Queued entry kind request none c = tt
  record_shadow-Queued entry kind request (some m) none = tt
  record_shadow-Queued entry kind request (some m) (some c) =
      elim (Bool-cases (same_names request.features c.names)) [
        | inl fits ↦ rw fits (
            shadow_vector-Queued entry kind request m c (vector_of request.features c.names) fits
              refl)
        | inr bad ↦ rw bad tt
      ]

  on_entry-FromEntry :
      (entry : DispatchEntry F M) (kind : String) (request : RecommendRequest F)
      (s : Option (Backend F))
      → entry.server ≡ s
      → (is_some entry.contract
          && not (member request.feature_contract_version (supported_versions entry)))
        ≡ false
      → All (FromEntry entry kind request) (on_server isfinite entry kind request s).1
  unfolding on_server
  on_entry-FromEntry entry kind request (some server) e v = tt
  on_entry-FromEntry entry kind request none e v =
      All-imp (record_shadow isfinite entry kind request entry.shadow_model entry.contract)
        (λ shadow (q : Queued entry kind request entry.shadow_model entry.contract shadow). record {
          contract = q.contract;
          unserved = e;
          published = q.published;
          supported = ground (arith, q.published, v);
          fits = q.fits;
          ordered = q.ordered;
          finite = q.finite;
          model = q.model;
          named = q.named;
        })
        (record_shadow-Queued entry kind request entry.shadow_model entry.contract)

  -- For a kind that has an entry in the snapshot, whatever `dispatch` queues for scoring in shadow
  -- is for the model of that entry, which serves nothing, under a supported contract version, and
  -- its vector is what a serving backend would have been asked: the features are exactly the
  -- contract's, finite, and in the contract's order.
  pub dispatch_shadows :
      (snapshot : Dict String (DispatchEntry F M)) (kind : String) (request : RecommendRequest F)
      (entry : DispatchEntry F M)
      → get snapshot kind ≡ some entry
      → All (FromEntry entry kind request) (dispatch isfinite snapshot kind request).1
  unfolding dispatch on_entry
  dispatch_shadows snapshot kind request entry found =
      rw found (elim (Bool-cases (other_kind kind request.kind_id)) [
        | inl e ↦ rw e tt
        | inr e ↦
            elim (Bool-cases (
              is_some entry.contract
              && not (member request.feature_contract_version (supported_versions entry)))) [
                | inl v ↦ rw (e, v) tt
                | inr v ↦ rw (e, v) (on_entry-FromEntry entry kind request entry.server refl v)
              ]
      ])
