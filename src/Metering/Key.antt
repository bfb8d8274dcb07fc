-- ===== src/Metering/Key.antt =====
-- `UBBMeter::CounterKey` of include/ubb_meter.h.
use Prim.Native.Nat.{bit_or}
use virtual_service_gateway.Common.Bits.{bit_or-shift16}
use virtual_service_gateway.Common.{
  ℕ, ◌+◌, ◌*◌, ◌%◌, ◌^◌, ◌<◌, ◌≡◌, ap, ◌∙◌, sym, arith, u16_mod, u32_mod, u64_mod,
}

-- `((uint64_t)sub_id << 16) | svc_id`.
unfoldable pub counter_key : ℕ → ℕ → ℕ
counter_key sub_id svc_id = bit_or (sub_id * 2 ^ 16 % u64_mod) svc_id

-- The packed key as arithmetic: the shift loses nothing and the `|` is a sum.
pub counter_key_lem :
    (sub_id svc_id : ℕ)
    → sub_id < u32_mod
    → svc_id < u16_mod
    → counter_key sub_id svc_id ≡ sub_id * 2 ^ 16 + svc_id
unfolding counter_key
counter_key_lem sub_id svc_id hs hv =
    let fits : sub_id * 2 ^ 16 % u64_mod ≡ sub_id * 2 ^ 16 = omega arith in
    ap (λ n. bit_or n svc_id) fits ∙ bit_or-shift16 sub_id svc_id hv

-- Two pairs of a 32-bit subscriber and a 16-bit service with the same packed key are the same pair.
pub counter_key_injective :
    (s v s' v' : ℕ)
    → s < u32_mod
    → v < u16_mod
    → s' < u32_mod
    → v' < u16_mod
    → counter_key s v ≡ counter_key s' v'
    → (s ≡ s') × (v ≡ v')
counter_key_injective s v s' v' hs hv hs' hv' e =
    let e' : s * 2 ^ 16 + v ≡ s' * 2 ^ 16 + v' =
      sym (counter_key_lem s v hs hv) ∙ e ∙ counter_key_lem s' v' hs' hv' in
    (omega arith, omega arith)
