-- ===== src/Registry/Validate/Digest.antt =====
-- The digest that modelstore/registry/manifest.py feeds piece by piece.
use kenaz_ml.Prelude.{
  ℕ, zero, suc, ◌+◌, ◌-◌, ◌*◌, ◌/◌, ◌≤◌, ◌<◌, [], ◌∷◌, ◌≡◌, refl, sym, ◌∙◌, ap, arith, length, drop,
  take, take-append-drop, length-drop,
}
use native.Mathlib.Nat.{div-add-mod, mod-lt}
use kenaz_ml.Registry.Validate.{Bytes, Sha256, feed, digest_bytes}

ceil_covers : (n c : ℕ) → 0 < c → n ≤ (n + c - 1) / c * c
ceil_covers n c h =
    let q = (n + c - 1) / c in omega (arith, div-add-mod (n + c - 1) c, mod-lt (n + c - 1) h)

module _ (sha : Sha256) where
  open sha use {State, start, update, hexdigest, update-append, update-nil}

  drop_short : (n : ℕ) (view : Bytes) → length view ≡ 0 → view ≡ []
  drop_short n [] h = refl
  drop_short n (b ∷ view) h = absurd (omega arith)

  feed_all :
      (size rounds : ℕ) (view : Bytes) (state : State)
      → length view ≤ rounds * size
      → feed sha size rounds view state ≡ update state view
  unfolding feed
  feed_all size zero view state h = rw (drop_short 0 view (omega arith)) (sym (update-nil state))
  feed_all size (suc rounds) view state h =
      feed_all size rounds (drop size view) (update state (take size view))
        (ground (arith, length-drop size view))
      ∙ update-append state (take size view) (drop size view)
      ∙ ap (update state) (take-append-drop size view)

  -- Feeding a payload in pieces of any size above 0 gives the digest of the whole payload.
  pub digest_bytes_whole :
      (chunk : ℕ) (payload : Bytes)
      → 0 < chunk
      → digest_bytes sha chunk payload ≡ hexdigest (update start payload)
  unfolding digest_bytes
  digest_bytes_whole chunk payload h = ap hexdigest (
      feed_all chunk ((length payload + chunk - 1) / chunk) payload start
        (ceil_covers (length payload) chunk h))
