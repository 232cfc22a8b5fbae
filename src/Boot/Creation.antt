-- ===== src/Boot/Creation.antt =====
-- The creation of the tasks by main() of Src/main.c, and the layout that it relies on.
use sentinel_rtos.Base.{
  ℕ, ◌+◌, ◌<◌, ◌≡◌, ◌≢◌, refl, ◌∙◌, none, some, false, ◌||◌, ◌==◌, ltb, leb, if◌then◌else◌, arith,
}
use sentinel_rtos.Kernel.State.{Kernel, max_tasks, ready, stack_canary}
use sentinel_rtos.Kernel.TaskTable.{os_task_create}
use sentinel_rtos.Kernel.TaskTable.Frame.{IsAccepted, os_task_create-frame}
use sentinel_rtos.Boot.{Program, stack_words, create_tasks}
use sentinel_rtos.Boot.Ready.{IsReady}
use sentinel_rtos.Boot.Entry.{IsApart, canary_apart, Framed, created-Framed, still-Framed}

-- What the tasks' creation writes to TCB `u` and to `current_tcb`.
pub os_task_create-tcb :
    (taskptr stack_base words priority u : ℕ) (k : Kernel)
    → IsAccepted taskptr words k
    → let k' = (os_task_create taskptr stack_base words priority k).1 in
      let new = u == k.task_count in
      ((k'.os_tasks u).current_priority
        ≡ (if new then priority else (k.os_tasks u).current_priority))
      × ((k'.os_tasks u).base_priority ≡ (if new then priority else (k.os_tasks u).base_priority))
      × ((k'.os_tasks u).stack_base ≡ (if new then stack_base else (k.os_tasks u).stack_base))
      × ((k'.os_tasks u).state ≡ (if new then ready else (k.os_tasks u).state))
      × (k'.current_tcb ≡ elim k.current_tcb [ none ↦ some k.task_count | some c ↦ some c ])
      × (k'.queues ≡ k.queues)
unfolding os_task_create
os_task_create-tcb taskptr stack_base words priority u k h =
    rw accepts (ground arith, ground arith, ground arith, ground arith, refl, refl)
  where
    accepts : (leb max_tasks k.task_count || taskptr == 0 || ltb words 64) ≡ false
    accepts = ground (arith, h.room, h.entry, h.words)

-- The layout that main() relies on: entry points, the radar's stack outside the other two and outside the
-- benchmark's buffer, and two semaphores for each queue that is used before the launch.
pub record IsLinked (p : Program) (k : Kernel) : Type 0 where
  pub radar_entry : p.radar_task ≢ 0
  pub sweep_entry : p.sweep_task ≢ 0
  pub idle_entry : p.os_idle_task ≢ 0
  pub from_sweep : IsApart p.radar_stack p.sweep_stack 256
  pub from_idle : IsApart p.radar_stack p.idle_stack 256
  pub from_buffer : IsApart p.radar_stack p.bench_buffer 8
  pub post_slots : (k.queues p.post_queue).empty_slots ≢ (k.queues p.post_queue).filled_slots
  pub bench_slots : (k.queues p.bench_queue).empty_slots ≢ (k.queues p.bench_queue).filled_slots

-- The first task is there, with its canary; `n` tasks are.
record Begun (p : Program) (n : ℕ) (k : Kernel) : Type 0 where
  several : k.task_count ≡ n
  first : k.current_tcb ≡ some 0
  fresh : (k.os_tasks 0).state ≡ ready
  high : ((k.os_tasks 0).current_priority ≡ 2) × ((k.os_tasks 0).base_priority ≡ 2)
  stack : (k.os_tasks 0).stack_base ≡ p.radar_stack
  canary : k.memory p.radar_stack ≡ stack_canary
  frame : Framed 0 p.radar_stack p.radar_task k

-- The creation of the radar's task.
begins :
    (p : Program) (k : Kernel)
    → p.radar_task ≢ 0
    → k.task_count ≡ 0
    → k.current_tcb ≡ none
    → Begun p 1 (os_task_create p.radar_task p.radar_stack stack_words 2 k).1
begins p k entry empty idle =
    let h : IsAccepted p.radar_task stack_words k = record {
      room = omega arith;
      entry = entry;
      words = omega arith;
    } in
    let t = os_task_create-tcb p.radar_task p.radar_stack stack_words 2 0 k h in
    let f = os_task_create-frame p.radar_task p.radar_stack stack_words 2 k h in
    record {
      several = ground (arith, f.1);
      first = t.4 ∙ rw (idle, empty) refl;
      fresh = ground (arith, t.3);
      high = (ground (arith, t.0), ground (arith, t.1));
      stack = ground (arith, t.2);
      canary = f.5;
      frame = created-Framed p.radar_task p.radar_stack 2 k h 0 empty;
    }

-- The creation of another task.
goes_on :
    (p : Program) (n taskptr stack_base priority : ℕ) (k : Kernel)
    → 0 < n
    → n < max_tasks
    → taskptr ≢ 0
    → IsApart p.radar_stack stack_base 256
    → Begun p n k
    → Begun p (n + 1) (os_task_create taskptr stack_base stack_words priority k).1
goes_on p n taskptr stack_base priority k some_there room entry apart b =
    let h : IsAccepted taskptr stack_words k = record {
      room = omega (arith, b.several);
      entry = entry;
      words = omega arith;
    } in
    let t = os_task_create-tcb taskptr stack_base stack_words priority 0 k h in
    let f = os_task_create-frame taskptr stack_base stack_words priority k h in
    record {
      several = ground (arith, f.1, b.several);
      first = t.4 ∙ rw b.first refl;
      fresh = ground (arith, t.3, b.several, b.fresh);
      high = (ground (arith, t.0, b.several, b.high), ground (arith, t.1, b.several, b.high));
      stack = ground (arith, t.2, b.several, b.stack);
      canary = f.8 p.radar_stack (canary_apart p.radar_stack stack_base 256 apart) ∙ b.canary;
      frame =
          still-Framed taskptr stack_base priority k h 0 p.radar_stack p.radar_task
            (omega (arith, b.several)) apart b.frame;
    }

pub create_tasks-IsReady :
    (p : Program) (k : Kernel)
    → IsLinked p k
    → k.task_count ≡ 0
    → k.current_tcb ≡ none
    → IsReady p.radar_stack p.radar_task (create_tasks p k) × ((create_tasks p k).queues ≡ k.queues)
unfolding create_tasks
create_tasks-IsReady p k l empty idle =
    let k1 = (os_task_create p.radar_task p.radar_stack stack_words 2 k).1 in
    let k2 = (os_task_create p.sweep_task p.sweep_stack stack_words 1 k1).1 in
    let b1 : Begun p 1 k1 = begins p k l.radar_entry empty idle in
    let b2 : Begun p 2 k2 =
      goes_on p 1 p.sweep_task p.sweep_stack 1 k1 (omega arith) (omega arith) l.sweep_entry
        l.from_sweep b1 in
    let b3 =
      goes_on p 2 p.os_idle_task p.idle_stack 0 k2 (omega arith) (omega arith) l.idle_entry
        l.from_idle b2 in
    let sweep : IsAccepted p.sweep_task stack_words k1 = record {
      room = omega (arith, b1.several);
      entry = l.sweep_entry;
      words = omega arith;
    } in
    let last : IsAccepted p.os_idle_task stack_words k2 = record {
      room = omega (arith, b2.several);
      entry = l.idle_entry;
      words = omega arith;
    } in
    let m2 = os_task_create-tcb p.sweep_task p.sweep_stack stack_words 1 1 k1 sweep in
    let m3 = os_task_create-tcb p.os_idle_task p.idle_stack stack_words 0 1 k2 last in
    let i3 = os_task_create-tcb p.os_idle_task p.idle_stack stack_words 0 2 k2 last in
    let radar : IsAccepted p.radar_task stack_words k = record {
      room = omega arith;
      entry = l.radar_entry;
      words = omega arith;
    } in
    let r = os_task_create-tcb p.radar_task p.radar_stack stack_words 2 0 k radar in
    (
      record {
        three = b3.several;
        first = b3.first;
        can_run = ground (arith, b3.fresh);
        high = b3.high;
        middle = (
          ground (arith, m3.0, m2.0, b1.several, b2.several),
          ground (arith, m3.1, m2.1, b1.several, b2.several),
        );
        low = (ground (arith, i3.0, b2.several), ground (arith, i3.1, b2.several));
        stack = b3.stack;
        canary = b3.canary;
        frame = b3.frame;
      },
      m3.5 ∙ m2.5 ∙ r.5,
    )
