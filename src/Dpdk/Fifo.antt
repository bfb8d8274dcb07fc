-- ===== src/Dpdk/Fifo.antt =====
-- A `RingQueue` between workers hands packets on in the order in which it took them.
use virtual_service_gateway.Common.{
  ℕ, ◌≡◌, refl, sym, ◌∙◌, ap, List, [], ◌∷◌, ◌++◌, Option, none, some, take, append-nil,
  append_assoc, Bool-cases, inl, inr, if◌then◌else◌,
}
use virtual_service_gateway.Dpdk.RingQueue.{RteRing, enqueue, enqueue_burst, dequeue, dequeue_burst}

pub data RingCall (M : Type 0) : Type 0 where
  put : M → RingCall M
  put_burst : List M → RingCall M
  get : RingCall M
  get_burst : ℕ → RingCall M

module _ {R M : Type 0} (ring : RteRing R M) where
  -- A call on a queue: the queue after it, the packets that it took, and those that it gave.
  unfoldable pub ring_step : Option R → RingCall M → Option R × (List M × List M)
  ring_step q (put m) =
      let (q', done) = enqueue ring q m in (q', ((if done then m ∷ [] else []), []))
  ring_step q (put_burst ms) = let (q', n) = enqueue_burst ring q ms in (q', (take n ms, []))
  ring_step q get =
      let (q', obj) = dequeue ring q in (q', ([], elim obj [ none ↦ [] | some m ↦ m ∷ [] ]))
  ring_step q (get_burst n) = let (q', objs) = dequeue_burst ring q n in (q', ([], objs))

  -- A sequence of calls: the packets taken, and those given, each in order.
  unfoldable pub ring_run : Option R → List (RingCall M) → Option R × (List M × List M)
  ring_run q [] = (q, ([], []))
  ring_run q (call ∷ calls) =
      let (q1, (taken, given)) = ring_step q call in
      let (q2, (more_taken, more_given)) = ring_run q1 calls in
      (q2, (taken ++ more_taken, given ++ more_given))

  abbrev pub held : Option R → List M
  held none = []
  held (some r) = ring.contents r

  step_conserves :
      (q : Option R) (call : RingCall M)
      → held q ++ (ring_step q call).1.0 ≡ (ring_step q call).1.1 ++ held (ring_step q call).0
  unfolding ring_step enqueue enqueue_burst dequeue dequeue_burst
  step_conserves none (put m) = refl
  step_conserves none (put_burst ms) = refl
  step_conserves none get = refl
  step_conserves none (get_burst n) = refl
  step_conserves (some r) (put m) =
      let law = ring.enqueued r m in
      elim (Bool-cases (ring.sp_enqueue r m).1) [
        | inl e ↦ rw e (sym (rw e at law))
        | inr e ↦ rw e (append-nil (ring.contents r) ∙ sym (rw e at law))
      ]
  step_conserves (some r) (put_burst ms) = sym (ring.burst_enqueued r ms)
  step_conserves (some r) get = append-nil (ring.contents r) ∙ sym (ring.dequeued r)
  step_conserves (some r) (get_burst n) =
      append-nil (ring.contents r) ∙ sym (ring.burst_dequeued r n)

  -- Over any calls on a queue, with a ring or without, the packets given followed by those that it
  -- still holds are those that it held followed by those taken: none is lost, repeated or overtaken.
  pub ring_run-held :
      (q : Option R) (calls : List (RingCall M))
      → let (q', (taken, given)) = ring_run q calls in held q ++ taken ≡ given ++ held q'
  unfolding ring_run
  ring_run-held q [] = append-nil (held q)
  ring_run-held q (call ∷ calls) =
      let (q1, (taken, given)) = ring_step q call in
      let (q2, (more_taken, more_given)) = ring_run q1 calls in
      sym (append_assoc (held q) taken more_taken)
      ∙ ap (λ ms. ms ++ more_taken) (step_conserves q call)
      ∙ append_assoc given (held q1) more_taken
      ∙ ap (λ ms. given ++ ms) (ring_run-held q1 calls)
      ∙ sym (append_assoc given more_given (held q2))
