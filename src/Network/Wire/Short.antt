-- ===== src/Network/Wire/Short.antt =====
-- What src/network/wire.rs makes of bytes that end too early.
use p2p_network_implementati.Prelude.{
  ℕ, ◌+◌, ◌<◌, ◌≡◌, ◌≢◌, List, Outcome, fails, panic, length, arith, bind_panic, bind_panics,
  bind-ne-fails,
}
use p2p_network_implementati.Bytes.{slice, slice_from, array_at, TryFromSliceError}
use p2p_network_implementati.Bytes.Cursor.{
  array_at-panic, array_at-ne-fails, slice-ne-fails, slice_from-ne-fails, slice_from-inv,
}
use p2p_network_implementati.Network.Errors.{ErrorLowLevelParsing}
use p2p_network_implementati.Network.Wire.{
  unserialize_netaddr, unserialize_useragent, unserialize_version_message,
}

unserialize_netaddr-ne-fails :
    (bytes : List ℕ) (e : ErrorLowLevelParsing) → unserialize_netaddr bytes ≢ fails e
unfolding unserialize_netaddr
unserialize_netaddr-ne-fails bytes e =
    bind-ne-fails _ (array 0 8) e (array_at-ne-fails conversion bytes 0 8) λ services.
      bind-ne-fails _ (array 8 16) e (array_at-ne-fails conversion bytes 8 16)
        λ ip. bind-ne-fails _ (array 24 2) e (array_at-ne-fails conversion bytes 24 2) λ port h. cc
  where
    conversion : TryFromSliceError → ErrorLowLevelParsing
    conversion = ErrorLowLevelParsing.conversion_error

    array : ℕ → ℕ → Outcome ErrorLowLevelParsing (List ℕ)
    array = array_at conversion bytes

-- Bytes that end before the length of the user agent is complete make the reading of a version
-- message panic: no error is returned.
pub unserialize_version_message_short :
    (bytes : List ℕ) → length bytes < 88 → unserialize_version_message bytes ≡ panic
unfolding unserialize_version_message
unserialize_version_message_short bytes short = bind_panics _ (array 0 4) (never 0 4) λ version e0.
    bind_panics _ (array 4 8) (never 4 8) λ services e1.
      bind_panics _ (array 12 8) (never 12 8) λ timestamp e2.
        bind_panics _ (slice bytes 20 46) (slice-ne-fails bytes 20 46) λ to_bytes e3.
          bind_panics _ (unserialize_netaddr to_bytes) (unserialize_netaddr-ne-fails to_bytes)
            λ to e4. bind_panics _ (slice bytes 46 72) (slice-ne-fails bytes 46 72) λ from_bytes e5.
              bind_panics _ (unserialize_netaddr from_bytes)
                (unserialize_netaddr-ne-fails from_bytes)
                λ from e6. bind_panics _ (array 72 8) (never 72 8) λ nonce e7.
                  bind_panics _ (slice_from bytes 80) (slice_from-ne-fails bytes 80)
                    λ tail e8. bind_panic _ (useragent_panics tail (slice_from-inv bytes 80 e8))
  where
    conversion : TryFromSliceError → ErrorLowLevelParsing
    conversion = ErrorLowLevelParsing.conversion_error

    array : ℕ → ℕ → Outcome ErrorLowLevelParsing (List ℕ)
    array = array_at conversion bytes

    never : (offset size : ℕ) (e : ErrorLowLevelParsing) → array offset size ≢ fails e
    never offset size e = array_at-ne-fails conversion bytes offset size

    useragent_panics :
        (tail : List ℕ) → 80 + length tail ≡ length bytes → unserialize_useragent tail ≡ panic
    useragent_panics tail size =
        unfold unserialize_useragent in
        bind_panic _ (array_at-panic conversion tail 0 8 (omega arith))
