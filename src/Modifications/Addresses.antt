-- ===== src/Modifications/Addresses.antt =====
-- `mac_swap` and `mac_rewrite` of examples/dpdk_common_modifications.h. The header is where the pointer
-- points; `rte_ether_addr_copy` copies six bytes.
use virtual_service_gateway.Common.{
  ℕ, suc, ◌+◌, ◌≤◌, ◌≡◌, refl, sym, ap, ◌∙◌, false, List, [], ◌∷◌, ◌++◌, take, drop, set, length,
  get_elem?, some, ltb, if◌then◌else◌, arith, get_elem?-set_self, lt-length_of_get_elem?,
  length-append, length-take, length-drop, zero,
}
use virtual_service_gateway.Common.Faults.{Result, ok, fault, out_of_bounds, ◌>>=◌}
use virtual_service_gateway.Ethernet.{Packet, swap_addresses, swap_addresses_involutive}
use virtual_service_gateway.Modifications.Headers.{Pointer, packet_at}

-- Writes the bytes from a pointer on, of which the first `size` are written.
unfoldable pub write_at : List Packet → Pointer → ℕ → (List ℕ → List ℕ) → Result (List Packet)
write_at memory at size f = packet_at memory at.mbuf >>= λ p.
    if ltb (length p.buffer) (at.offset + size)
    then fault out_of_bounds
    else ok (
        set memory at.mbuf
          (record p { buffer = take at.offset p.buffer ++ f (drop at.offset p.buffer) }))

unfoldable pub mac_swap : List Packet → Pointer → Result (List Packet)
mac_swap memory eth = write_at memory eth 12 swap_addresses

unfoldable pub mac_rewrite : List Packet → Pointer → List ℕ → Result (List Packet)
mac_rewrite memory eth new_dst = write_at memory eth 6 (λ bytes. take 6 new_dst ++ drop 6 bytes)

set-set : {A : Type 0} (xs : List A) (i : ℕ) (a b : A) → set (set xs i a) i b ≡ set xs i b
set-set [] i a b = refl
set-set (x ∷ xs) zero a b = refl
set-set (x ∷ xs) (suc i) a b = ap (λ r. x ∷ r) (set-set xs i a b)

set-get_elem? :
    {A : Type 0} (xs : List A) (i : ℕ) (a : A) → get_elem? xs i ≡ some a → set xs i a ≡ xs
set-get_elem? [] i a e = refl
set-get_elem? (x ∷ xs) zero a e = let same : x ≡ a = cc e in ap (λ y. y ∷ xs) (sym same)
set-get_elem? (x ∷ xs) (suc i) a e = ap (λ r. x ∷ r) (set-get_elem? xs i a e)

-- A swap at the start of a buffer with room for both addresses.
pub mac_swap_start :
    (memory : List Packet) (mbuf : ℕ) (p : Packet)
    → get_elem? memory mbuf ≡ some p
    → 12 ≤ length p.buffer
    → mac_swap memory (record { mbuf = mbuf; offset = 0 })
      ≡ ok (set memory mbuf (record p { buffer = swap_addresses p.buffer }))
unfolding mac_swap write_at packet_at
mac_swap_start memory mbuf p e room =
    let fits : ltb (length p.buffer) 12 ≡ false = ground (arith, room) in rw (e, ◌>>=◌, fits) refl

pub length-swap_addresses :
    (bytes : List ℕ) → 12 ≤ length bytes → length (swap_addresses bytes) ≡ length bytes
unfolding swap_addresses
length-swap_addresses bytes room =
    let first = length-drop 6 bytes (omega (arith, room)) in
    omega (
      arith,
      length-append (take 6 (drop 6 bytes)) (take 6 bytes ++ drop 12 bytes),
      length-append (take 6 bytes) (drop 12 bytes),
      length-take 6 bytes (omega (arith, room)),
      length-take 6 (drop 6 bytes) (omega (arith, room, first)),
      length-drop 12 bytes room,
    )

-- Where a swap at the start of a packet succeeds, a second one restores every buffer.
pub mac_swap_involutive :
    (memory : List Packet) (mbuf : ℕ) (p : Packet)
    → get_elem? memory mbuf ≡ some p
    → 12 ≤ length p.buffer
    → let eth : Pointer = record { mbuf = mbuf; offset = 0 } in
      (mac_swap memory eth >>= λ memory'. mac_swap memory' eth) ≡ ok memory
mac_swap_involutive memory mbuf p e room =
    let swapped = record p { buffer = swap_addresses p.buffer } in
    let known = lt-length_of_get_elem? memory mbuf p e in
    let again =
      mac_swap_start (set memory mbuf swapped) mbuf swapped
        (get_elem?-set_self memory mbuf swapped known)
        (omega (arith, room, length-swap_addresses p.buffer room)) in
    let back : record swapped { buffer = swap_addresses swapped.buffer } ≡ p =
      ap (λ b. record p { buffer = b }) (swap_addresses_involutive p.buffer room) in
    ap (λ r. r >>= λ memory'. mac_swap memory' (record { mbuf = mbuf; offset = 0 }))
      (mac_swap_start memory mbuf p e room)
    ∙ again
    ∙ ap ok
        (set-set memory mbuf swapped _ ∙ ap (set memory mbuf) back ∙ set-get_elem? memory mbuf p e)
