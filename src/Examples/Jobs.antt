-- ===== src/Examples/Jobs.antt =====
-- The properties of the launch configuration and of the remote jobs at concrete inputs.
use v_llm_dashboard.Prelude.{ℕ, ◌≡◌, refl, ◌++◌, ◌∷◌, [], arith, false, true, some, is_some}
use v_llm_dashboard.Prelude.Texts.{code_points}
use v_llm_dashboard.Prelude.Words.{drop_spaces, rstrip_spaces}
use v_llm_dashboard.Launch.Api.{parse_launch_api}
use v_llm_dashboard.Launch.Valid.{IsApi, parse_launch_api-IsApi}
use v_llm_dashboard.Launch.Store.{stored, Files, save_config, load_config}
use v_llm_dashboard.Launch.Store.Kept.{load_config-save_config}
use v_llm_dashboard.RemoteJob.{
  alive, absent, poll_reply, poll_marker, status_line, new_watch, poll_job, Round, run_long,
  vanished, read_poll, rfind_marker, by_status, take_content,
}
use v_llm_dashboard.RemoteJob.Skipped.{after, poll_job-skips}
use v_llm_dashboard.RemoteJob.Ends.{Grounds, run_long-Grounds, run_long-ends}

parse_launch_api-IsApi_example :
    IsApi (parse_launch_api (code_points "vllm serve --port 9000") (code_points "API_KEY=k"))
parse_launch_api-IsApi_example =
    parse_launch_api-IsApi (code_points "vllm serve --port 9000") (code_points "API_KEY=k")

-- another model's configuration stands under the same file name
abbrev taken_files : Files ℕ
taken_files = (code_points "x_y.json", stored (some (code_points "x_y")) 1) ∷ []

load_config-save_config_example :
    load_config
      (λ id. code_points "0d")
      (code_points "x/y")
      (save_config (λ id. code_points "0d") (code_points "x/y") 2 taken_files)
    ≡ some 2
load_config-save_config_example =
    load_config-save_config (λ id. code_points "0d") (code_points "x/y") 2 taken_files

poll_job-skips_example :
    poll_reply
      (after (poll_job (poll_reply 0 (code_points "ab\n") alive) new_watch) new_watch).offset
      (code_points "ab\n" ++ b'c' ∷ code_points "d\n")
      alive
    ≡ code_points "d\n" ++ (b'\n' ∷ poll_marker ++ (b'\n' ∷ status_line alive))
poll_job-skips_example =
    poll_job-skips (code_points "ab\n") (code_points "d\n") b'c' new_watch (omega arith)

abbrev gone : Round
gone = record { cancelled = false; overdue = false; reply = some (poll_reply 0 [] absent) }

gone_thrice : run_long (gone ∷ gone ∷ gone ∷ []) new_watch ≡ some vanished
unfolding run_long poll_job read_poll rfind_marker by_status take_content drop_spaces rstrip_spaces
gone_thrice = refl

run_long-Grounds_example : Grounds vanished 0 (gone ∷ gone ∷ gone ∷ [])
run_long-Grounds_example = run_long-Grounds (gone ∷ gone ∷ gone ∷ []) vanished gone_thrice

run_long-ends_example :
    is_some (run_long (gone ∷ record gone { cancelled = true } ∷ []) new_watch) ≡ true
run_long-ends_example = run_long-ends (gone ∷ record gone { cancelled = true } ∷ []) new_watch refl
