-- ===== src/MpscQueue/Tests.antt =====
-- A run of two producers and the consumer of free_queue/MPSCQueue.h.
use cpp_infra.Common.{[], none, refl, true, ◌∷◌, ◌≡◌, ◌⊎◌}
use cpp_infra.MpscQueue.{
  MpscQueue, new, exchange, link, look, advance, delete_node, Reach, exchanges, links, looks,
  advances, start, after,
}
use cpp_infra.MpscQueue.Safety.{Uses, frees, Uses-alive, Oldest, NothingYet, look-order}

-- Producer 1 has enqueued 70 at the node 5; producer 2 has exchanged 80 at the node 6 only.
abbrev one_linked : MpscQueue
one_linked = link 1 4 5 (exchange 2 6 80 (exchange 1 5 70 (new 4)))

-- The consumer has taken 70 and is about to delete the first node.
abbrev taken : MpscQueue
taken = advance 5 (look one_linked)

one_linked-Reach : Reach one_linked
unfolding exchange new link
one_linked-Reach =
    after
      (after (after (start 4) (exchanges (new 4) 1 5 70 refl refl))
        (exchanges (exchange 1 5 70 (new 4)) 2 6 80 refl refl))
      (links (exchange 2 6 80 (exchange 1 5 70 (new 4))) 1 4 5 refl)

taken-Reach : Reach taken
unfolding exchange new link look
taken-Reach =
    after (after one_linked-Reach (looks one_linked refl)) (advances (look one_linked) 5 refl)

taken_popped : taken.popped ≡ 70 ∷ []
unfolding exchange new link look advance
taken_popped = refl

-- After the delete, the node that producer 2 still has to link is the one that `_tail` is at.
deleted_next : (delete_node 4 taken).next (delete_node 4 taken).tail ≡ none
unfolding exchange new link look advance delete_node
deleted_next = refl

taken_frees : Uses taken 4
unfolding exchange new link look advance
taken_frees = frees 4 refl

Uses-alive_example : taken.live 4 ≡ true
Uses-alive_example = Uses-alive taken 4 taken-Reach taken_frees

look-order_example : Oldest one_linked ⊎ NothingYet one_linked
look-order_example = look-order one_linked one_linked-Reach
