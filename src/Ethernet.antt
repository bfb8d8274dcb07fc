-- ===== src/Ethernet.antt =====
-- Packet buffers as the programs under examples see them: the bytes of the data area of `struct rte_mbuf`
-- from `rte_pktmbuf_mtod` on, room behind the packet included, and `pkt_len`.
use virtual_service_gateway.Common.{
  ℕ, ◌≤◌, ◌≡◌, refl, List, [], ◌∷◌, ◌++◌, take, drop, length, arith,
}

pub record Packet : Type 0 where
  pub buffer : List ℕ
  pub pkt_len : ℕ

-- `tmp = dst_addr; dst_addr = src_addr; src_addr = tmp`: the destination is at the bytes 0 to 5, the
-- source at the bytes 6 to 11.
unfoldable pub swap_addresses : List ℕ → List ℕ
swap_addresses bytes = take 6 (drop 6 bytes) ++ (take 6 bytes ++ drop 12 bytes)

-- Swapping twice gives the bytes back, in a buffer with room for both addresses.
pub swap_addresses_involutive :
    (bytes : List ℕ) → 12 ≤ length bytes → swap_addresses (swap_addresses bytes) ≡ bytes
unfolding swap_addresses
swap_addresses_involutive (a ∷ b ∷ c ∷ d ∷ e ∷ f ∷ g ∷ h ∷ i ∷ j ∷ k ∷ l ∷ r) enough = refl
swap_addresses_involutive [] enough = absurd (omega (arith, enough))
swap_addresses_involutive (a ∷ []) enough = absurd (omega (arith, enough))
swap_addresses_involutive (a ∷ b ∷ []) enough = absurd (omega (arith, enough))
swap_addresses_involutive (a ∷ b ∷ c ∷ []) enough = absurd (omega (arith, enough))
swap_addresses_involutive (a ∷ b ∷ c ∷ d ∷ []) enough = absurd (omega (arith, enough))
swap_addresses_involutive (a ∷ b ∷ c ∷ d ∷ e ∷ []) enough = absurd (omega (arith, enough))
swap_addresses_involutive (a ∷ b ∷ c ∷ d ∷ e ∷ f ∷ []) enough = absurd (omega (arith, enough))
swap_addresses_involutive (a ∷ b ∷ c ∷ d ∷ e ∷ f ∷ g ∷ []) enough = absurd (omega (arith, enough))
swap_addresses_involutive (a ∷ b ∷ c ∷ d ∷ e ∷ f ∷ g ∷ h ∷ []) enough =
    absurd (omega (arith, enough))
swap_addresses_involutive (a ∷ b ∷ c ∷ d ∷ e ∷ f ∷ g ∷ h ∷ i ∷ []) enough =
    absurd (omega (arith, enough))
swap_addresses_involutive (a ∷ b ∷ c ∷ d ∷ e ∷ f ∷ g ∷ h ∷ i ∷ j ∷ []) enough =
    absurd (omega (arith, enough))
swap_addresses_involutive (a ∷ b ∷ c ∷ d ∷ e ∷ f ∷ g ∷ h ∷ i ∷ j ∷ k ∷ []) enough =
    absurd (omega (arith, enough))
