-- ===== src/Examples/Recovery.antt =====
-- A restart on a full file of tasks.
use v_llm_dashboard.Prelude.{
  String, ◌≡◌, refl, Bool, true, false, not, ◌&&◌, none, some, List, [], ◌∷◌, ◌++◌, map, arith,
  string_eq, ◌==◌,
}
use v_llm_dashboard.Prelude.Dict.{get, set}
use v_llm_dashboard.Deployment.Tasks.{
  Task, TaskManager, new_task, success, create, persist_locked, has_inflight, inflight_domain,
  waiting,
}
use v_llm_dashboard.Deployment.Recovery.{recover, recovered, recover_each, reversed}
use v_llm_dashboard.Deployment.Forgotten.{Distinct, ApartFrom, recover-forgets_newest}

abbrev finished : String → Task
finished id = record (new_task id "vllm" "Install vLLM" [] 1) { status = success }

abbrev older : List Task
older = map finished (
    "t1" ∷ "t2" ∷ "t3" ∷ "t4" ∷ "t5" ∷ "t6" ∷ "t7" ∷ "t8" ∷ "t9" ∷ "t10" ∷ "t11" ∷ "t12" ∷ "t13"
    ∷ "t14" ∷ "t15" ∷ "t16" ∷ "t17" ∷ "t18" ∷ "t19" ∷ "t20" ∷ "t21" ∷ "t22" ∷ "t23" ∷ "t24" ∷ "t25"
    ∷ "t26" ∷ "t27" ∷ "t28" ∷ "t29" ∷ "t30" ∷ "t31" ∷ "t32" ∷ "t33" ∷ "t34" ∷ "t35" ∷ "t36" ∷ "t37"
    ∷ "t38" ∷ "t39" ∷ "t40" ∷ "t41" ∷ "t42" ∷ "t43" ∷ "t44" ∷ "t45" ∷ "t46" ∷ "t47" ∷ "t48" ∷ "t49"
    ∷ [])

abbrev newest : Task
newest = finished "t50"

abbrev manager : TaskManager
manager = recover 100 (map some (older ++ newest ∷ [])) []

abbrev differs : String → List Task → Bool
differs k [] = true
differs k (t ∷ ts) = not (k == t.id) && differs k ts

abbrev all_differ : List Task → Bool
all_differ [] = true
all_differ (t ∷ ts) = differs t.id ts && all_differ ts

differs-ApartFrom : (k : String) (ts : List Task) → differs k ts ≡ true → ApartFrom k ts
differs-ApartFrom k [] e = tt
differs-ApartFrom k (t ∷ ts) e = (ground arith, differs-ApartFrom k ts (ground arith))

all_differ-Distinct : (ts : List Task) → all_differ ts ≡ true → Distinct ts
all_differ-Distinct [] e = tt
all_differ-Distinct (t ∷ ts) e =
    (differs-ApartFrom t.id ts (ground arith), all_differ-Distinct ts (ground arith))

distinct : Distinct (newest ∷ reversed older)
distinct = all_differ-Distinct (newest ∷ reversed older) refl

free : get "t51" manager.tasks ≡ none
unfolding recover persist_locked recover_each recovered get set
free = refl

abbrev made : TaskManager
made = persist_locked (record manager {
  tasks = set "t51" (new_task "t51" "driver" "Apply driver" [] 200) manager.tasks;
  cancel_set = set "t51" false manager.cancel_set;
  threads = set "t51" waiting manager.threads;
})

creates : create "t51" "driver" "Apply driver" [] 200 manager ≡ some made
unfolding create recover persist_locked recover_each recovered has_inflight inflight_domain set
creates = refl

recover-forgets_newest_example :
    made.tasks_file
    ≡ map (recovered 100) (reversed older) ++ new_task "t51" "driver" "Apply driver" [] 200 ∷ []
recover-forgets_newest_example =
    recover-forgets_newest 100 200 older newest [] "t51" "driver" "Apply driver" [] made distinct
      (omega arith) free creates
