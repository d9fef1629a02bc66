-- ===== src/Uring/Interrupted.antt =====
-- What the loop of uring_context.hpp does with a system call that was interrupted.
use net.Prelude.{ℕ, ◌≡◌, ◌≢◌, [], ne→==}
use net.Uring.{Ring, Context, terminated, not_got, refused, process_task, wait}
use net.Uring.Run.{run_one, turn, flush}

module _ {R : Type 0} (ring : Ring R) (e : ℕ) (c : Context R) where
  -- Where no task is there and requests are to be submitted, an error of
  -- io_uring_submit_and_wait, EINTR after a signal included, ends the program.
  pub run_one_interrupted :
      c.tasks ≡ []
      → c.submitting ≢ 0
      → (ring.submit_and_wait 1 c.ring).0 ≡ refused e
      → run_one ring c ≡ terminated
  unfolding run_one process_task turn flush
  run_one_interrupted none_there some_there said =
      simp (none_there, ne→== c.submitting 0 some_there, said, run_one, process_task, turn, flush)

  -- Where no task is there, nothing is to be submitted and requests are outstanding, an error of
  -- io_uring_wait_cqe, EINTR after a signal included, ends the program.
  pub run_one_interrupted_wait :
      c.tasks ≡ []
      → c.submitting ≡ 0
      → c.outstanding ≢ 0
      → (ring.wait_cqe c.ring).0 ≡ not_got e
      → run_one ring c ≡ terminated
  unfolding run_one process_task turn flush wait
  run_one_interrupted_wait none_there none_left some_there said = simp (
    none_there,
    none_left,
    ne→== c.outstanding 0 some_there,
    said,
    run_one,
    process_task,
    turn,
    flush,
    wait,
  )
