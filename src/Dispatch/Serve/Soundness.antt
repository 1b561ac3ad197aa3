-- ===== src/Dispatch/Serve/Soundness.antt =====
-- What holds of a recommendation that advice/dispatch.py serves.
use kenaz_ml.Prelude.{
  String, string_eq, Bool, true, false, not, ◌&&◌, Option, none, some, ◌≡◌, ◌≢◌, inl, inr, refl,
  arith, Option-cases,
}
use kenaz_ml.Dict.{Dict, get}
use kenaz_ml.Registry.Manifest.{FeatureContract}
use kenaz_ml.Dispatch.{
  Backend, DispatchEntry, RecommendRequest, RecommendResponse, supported_versions, is_some,
}
use kenaz_ml.Dispatch.Serve.{serves, member, serve_with, other_kind, on_server, on_entry, dispatch}
use kenaz_ml.Dispatch.Serve.Checks.{Answers, serve_with_sound}

module _ {F M : Type 0} (isfinite : F → Bool) where
  -- The entry that serves a request: the kind's own, with a server and a contract that the
  -- request's version and kind agree with, and to which the answer is good.
  pub record Served (snapshot : Dict String (DispatchEntry F M)) (kind : String)
      (request : RecommendRequest F) (r : RecommendResponse) : Type 0 where
    pub entry : DispatchEntry F M
    pub contract : FeatureContract
    pub server : Backend F
    pub found : get snapshot kind ≡ some entry
    pub same_kind : other_kind kind request.kind_id ≡ false
    pub published : entry.contract ≡ some contract
    pub installed : entry.server ≡ some server
    pub supported : member request.feature_contract_version (supported_versions entry) ≡ true
    pub answers : Answers isfinite kind request contract server r

  on_server_sound :
      (entry : DispatchEntry F M) (kind : String) (request : RecommendRequest F)
      (s : Option (Backend F)) (r : RecommendResponse)
      → (on_server isfinite entry kind request s).0 ≡ serves r
      → (server : Backend F) × (s ≡ some server)
        × (serve_with isfinite kind request entry.contract server ≡ serves r)
  unfolding on_server
  on_server_sound entry kind request none r h = cc
  on_server_sound entry kind request (some server) r h = (server, refl, h)

  on_entry_sound :
      (entry : DispatchEntry F M) (kind : String) (request : RecommendRequest F)
      (r : RecommendResponse)
      → (on_entry isfinite kind request (some entry)).0 ≡ serves r
      → (other_kind kind request.kind_id ≡ false)
        × ((is_some entry.contract
              && not (member request.feature_contract_version (supported_versions entry)))
            ≡ false)
        × ((on_server isfinite entry kind request entry.server).0 ≡ serves r)
  unfolding on_entry
  on_entry_sound entry kind request r h = ground arith

  no_entry_refuses :
      (kind : String) (request : RecommendRequest F) (found : Option (DispatchEntry F M))
      (r : RecommendResponse)
      → found ≡ none
      → (on_entry isfinite kind request found).0 ≢ serves r
  unfolding on_entry
  no_entry_refuses kind request none r e h = cc
  no_entry_refuses kind request (some entry) r e h = cc

  -- A response that `dispatch` returns comes from the backend installed for the very kind: the
  -- request named that kind if any, its contract version is supported, its features are exactly
  -- the contract's, all finite and put in the contract's order, and the answer has an integer
  -- confidence of at most 100 and exactly one of a decision and a score.
  pub dispatch_sound :
      (snapshot : Dict String (DispatchEntry F M)) (kind : String) (request : RecommendRequest F)
      (r : RecommendResponse)
      → (dispatch isfinite snapshot kind request).0 ≡ serves r
      → Served snapshot kind request r
  unfolding dispatch
  dispatch_sound snapshot kind request r h = elim (Option-cases (get snapshot kind)) [
    | inl gone ↦ absurd (no_entry_refuses kind request (get snapshot kind) r gone h)
    | inr (entry, found) ↦
        let (same, version, served) = on_entry_sound entry kind request r (rw found at h) in
        let (server, installed, sw) = on_server_sound entry kind request entry.server r served in
        let (contract, published, answers) =
          serve_with_sound isfinite kind request entry.contract server r sw in
        record {
          entry = entry;
          contract = contract;
          server = server;
          found = found;
          same_kind = same;
          published = published;
          installed = installed;
          supported = ground (arith, published, version);
          answers = answers;
        }
  ]
