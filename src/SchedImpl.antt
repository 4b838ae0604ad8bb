-- ===== src/SchedImpl.antt =====
-- totw_p4/sched_impl.c, from `init_thread_info` on: what the workers and the scheduler do with the
-- scheduler's two lists and its semaphores.
use team_otw_os_labs.Base.{
  ℕ, ◌==◌, Bool, true, false, if◌then◌else◌, Option, none, some, Run, ok, ◌>>=◌, sub_int,
}
use team_otw_os_labs.Threads.{Semaphores}
use team_otw_os_labs.LinkedList.{Heap, read}
use team_otw_os_labs.Wrapper.{
  Wrapper, create_wrapper, insert_item_tail, remove_item, wrapper_size, elt_in_list,
}

module _ (api : Semaphores) where
  open api use {Sem, sem_init, sem_wait, sem_post}

  -- `struct sched_queue`
  pub record SchedQueue : Type 0 where
    pub queue : Wrapper api
    pub max_running : ℕ
    pub running : Wrapper api
    pub sem : Sem

  unfoldable pub init_sched_queue : (queue_size : ℕ) → SchedQueue
  unfolding create_wrapper sub_int
  init_sched_queue queue_size = record {
    queue = create_wrapper api;
    max_running = queue_size;
    running = create_wrapper api;
    sem = sem_init (sub_int queue_size 1);
  }

  -- `info` is the address of a `thread_info_t`, and `fresh` is what `malloc` returns.
  unfoldable pub enter_sched_queue : (fresh info : ℕ) → SchedQueue → Heap → Run (SchedQueue × Heap)
  enter_sched_queue fresh info sq h =
      insert_item_tail api fresh info sq.queue h >>= λ r. ok (record sq { queue = r.0 }, r.1)

  unfoldable pub leave_sched_queue : (fuel info : ℕ) → SchedQueue → Heap → Run (SchedQueue × Heap)
  leave_sched_queue fuel info sq h =
      remove_item api fuel info sq.queue h >>= λ r. ok (record sq { queue = r.0 }, r.1)

  -- `wait_for_cpu` on the semaphore of a `thread_info_t`.
  unfoldable pub wait_for_cpu : Sem → Sem
  wait_for_cpu sem = sem_wait sem

  -- `remove_item(info->sq->running, info)`, the first call of either `release_cpu`, and
  -- `sem_post(info->sq->sem)`, the last one.
  unfoldable pub stop_running : (fuel info : ℕ) → SchedQueue → Heap → Run (SchedQueue × Heap)
  stop_running fuel info sq h =
      remove_item api fuel info sq.running h >>= λ r. ok (record sq { running = r.0 }, r.1)

  unfoldable pub post_queue : SchedQueue → SchedQueue
  post_queue sq = record sq { sem = sem_post sq.sem }

  -- The first call of `wake_up_worker`; the second one posts the worker's own semaphore.
  unfoldable pub start_running : (fresh info : ℕ) → SchedQueue → Heap → Run (SchedQueue × Heap)
  start_running fresh info sq h =
      insert_item_tail api fresh info sq.running h >>= λ r. ok (record sq { running = r.0 }, r.1)

  unfoldable pub wait_for_worker : SchedQueue → SchedQueue
  wait_for_worker sq = record sq { sem = sem_wait sq.sem }

  -- One turn of the loop of `next_worker` at the element `elt`: its datum, if that one does not
  -- run.
  unfoldable pub candidate : (fuel elt : ℕ) → SchedQueue → Heap → Run (Option ℕ × SchedQueue)
  candidate fuel elt sq h = read h elt >>= λ e. elt_in_list api fuel e.datum sq.running h >>= λ r.
      ok (if r.0 then none else some e.datum, record sq { running = r.1 })

  -- `wait_for_queue`, one look at the queue: `done_thing` afterwards, and whether the call returns.
  unfoldable pub wait_for_queue :
      (fuel : ℕ) → (done_thing : Bool) → SchedQueue → Heap → Run (Bool × SchedQueue)
  wait_for_queue fuel true sq h = ok (true, sq)
  wait_for_queue fuel false sq h = wrapper_size api fuel sq.queue h >>= λ r.
      ok (if r.0 == 0 then false else true, record sq { queue = r.1 })
