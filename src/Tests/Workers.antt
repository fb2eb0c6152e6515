-- ===== src/Tests/Workers.antt =====
-- A worker that claims the build job, and the runs of its commands.
use postgres_pipeline_orches.Common.{◌≡◌, refl, sym, ◌∙◌, ◌↔◌, true, false, some, [], ◌∷◌}
use postgres_pipeline_orches.Common.Text.{codes}
use postgres_pipeline_orches.Database.{by_count, fine}
use postgres_pipeline_orches.JobQueue.{Claimed, heartbeat, calls}
use postgres_pipeline_orches.Locks.{acquired}
use postgres_pipeline_orches.Executor.{
  out, err, closed, started, Answers, returned, waiting, newline, execute, is_deploy, run_guarded,
  run_command, finish, run_deploy,
}
use postgres_pipeline_orches.Executor.Resources.{is_tidy, execute-is_tidy}
use postgres_pipeline_orches.Executor.Success.{Succeeds, execute-zero_iff}
use postgres_pipeline_orches.Worker.{Round, World, tick, other, run_loop}
use postgres_pipeline_orches.Worker.Stalled.{claims_alone, nothing_reported}
use postgres_pipeline_orches.Tests.Samples.{worker_1, nothing_locked, queued}

abbrev pub good : Answers
good = record {
  lock = acquired;
  warned = true;
  told = true;
  announced = true;
  spawned = started (out (codes "ok") ∷ err (newline ∷ []) ∷ []) (some (closed (some 0)));
  released = true;
}

abbrev deploy_job : Claimed
deploy_job = record {
  id = some 4;
  command = codes "./deploy.sh production";
  stage = codes "deploy";
  pipeline_run_id = some 7;
}

deploy_ends : (execute good worker_1 deploy_job).1 ≡ returned 0
unfolding execute run_deploy run_guarded run_command finish
deploy_ends = refl

execute-is_tidy_example :
    is_tidy (is_deploy deploy_job) false false (execute good worker_1 deploy_job).0 ≡ true
execute-is_tidy_example =
    execute-is_tidy good worker_1 deploy_job
      (λ w. let q : returned 0 ≡ waiting = sym deploy_ends ∙ w in cc)

execute-zero_iff_example :
    ((execute good worker_1 deploy_job).1 ≡ returned 0) ↔ Succeeds good worker_1 deploy_job
execute-zero_iff_example = execute-zero_iff good worker_1 deploy_job

abbrev pub round : Round
round = record {
  locked = nothing_locked;
  now = 200;
  claim_reply = fine;
  answers = good;
  meanwhile = tick 250 ∷ other (heartbeat 2 260) ∷ [];
  later = 300;
  report_reply = fine;
  sendings = [];
}

abbrev pub world : World
world = record { db = queued; box = [] }

nothing_reported_example :
    ((run_loop by_count by_count worker_1 (round ∷ round ∷ []) world).db
      ≡ calls (claims_alone worker_1 (round ∷ round ∷ [])) queued)
    × ((run_loop by_count by_count worker_1 (round ∷ round ∷ []) world).box ≡ [])
nothing_reported_example =
    nothing_reported by_count by_count worker_1 (λ js. refl) (round ∷ round ∷ []) world
