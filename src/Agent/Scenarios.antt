-- ===== src/Agent/Scenarios.antt =====
-- Whole runs of the small device: an update and the boot behind it, the agent's loop, the status server,
-- and the calls of an application.
use mcu_sdk.Base.{
  ℕ, ◌<◌, ◌+◌, ◌-◌, ◌≡◌, refl, arith, true, none, some, [], ◌∷◌, ◌++◌, List, drop, le→leb, lt→ltb,
  length, take, ltb, codes, bytes_eq, c_string,
}
use mcu_sdk.Plat.{Book}
use mcu_sdk.Plat.Beside.{beside}
use mcu_sdk.Manifest.Verify.Sample.{toy_verify, update, wire, digest}
use mcu_sdk.Install.Device.{Board, BoardKeeps}
use mcu_sdk.Install.{
  stage_image, receive_image, check_staged, verify_slot_sha256, hash_slot, hex32, image_confirmed,
}
use mcu_sdk.Install.Complete.{IsReliable, verify_slot_sha256-bytes_eq}
use mcu_sdk.Agent.{Agent, rebooted, poll_once, boot_healthy}
use mcu_sdk.Agent.Cycle.{NeverFails, next_book, book-boot_healthy}
use mcu_sdk.Agent.Cycle.Update.{poll_once-updates}
use mcu_sdk.Agent.Start.{
  ok, err_state, unstarted, Call, agent_start, report_metric, run_calls, expected, first_version,
  threads_for, run_calls-expected, asked_version, meshanics_agent_version,
}
use mcu_sdk.Agent.Status.{
  Host, About, Served, local_ip, build_status, status_response, serve, serve_loop, body_size,
  resp_size,
}
use mcu_sdk.Agent.Status.Serve.{IsQueue, serve_loop-all}
use mcu_sdk.Agent.Status.Answer.{serve-answers}
use mcu_sdk.Agent.Toy.{
  toy, same, toy_laws, image, toy_digest, board, hash_laws, slot_laws, net, net_laws, waiting,
  agent, verifies,
}

-- A board on which the digest of the update comes out.
abbrev good_board : Board Book
good_board = record board { psa_hash_finish = λ op. hex32 digest }

good_board_keeps : BoardKeeps good_board same
good_board_keeps = record {
  keeps_confirm = λ k. refl;
  keeps_request = λ k. refl;
  keeps_init = λ k. refl;
  keeps_write = λ s last k. refl;
}

never : NeverFails toy good_board
never = record {
  stores_counter = λ v d. refl;
  stores_pending = λ v d. refl;
  stores_failed = λ v d. refl;
  stores_attempted = λ s d. refl;
  clears_pending = λ d. refl;
  clears_failed = λ d. refl;
  clears_attempted = λ d. refl;
  requests = λ d. refl;
}

stages :
    (d : Book)
    → (stage_image good_board net.firmware_download (c_string (take 64 update.sha256)) 300 d).0
      ≡ true
unfolding stage_image receive_image check_staged verify_slot_sha256 hash_slot hex32
stages d = refl

abbrev current : Book
current = record { applied = 3; pending = 0; failed = 0; attempted = none }

poll_once-updates_example :
    (s' : Agent Book) × (poll_once toy good_board net toy_verify (agent current) ≡ rebooted s')
    × (boot_healthy toy good_board s'.dev
        ≡ record { applied = 7; pending = 0; failed = 0; attempted = none })
unfolding image_confirmed
poll_once-updates_example =
    poll_once-updates toy good_board net toy_verify same toy_laws good_board_keeps net_laws never
      (λ d. d) (λ d. refl) (agent current) (wire 131) update refl verifies (omega arith)
      (λ e. omega (arith, e)) stages

book-boot_healthy_example :
    same (boot_healthy toy good_board waiting)
    ≡ next_book (image_confirmed toy good_board waiting) (same waiting)
book-boot_healthy_example =
    book-boot_healthy toy good_board same toy_laws good_board_keeps never waiting (omega arith)

reliable : IsReliable board (λ k. image)
reliable = record {
  reads = λ off n d h. (take n (drop off image), (rw (le→leb (off + n) (length image) h) refl));
  opens = λ d. refl;
  sets_up = ([], refl);
  updates = λ op s. (op ++ s, refl);
  finishes = λ op. (toy_digest, refl, refl);
}

verify_slot_sha256-bytes_eq_example :
    verify_slot_sha256 board 600 toy_digest waiting ≡ bytes_eq toy_digest toy_digest
verify_slot_sha256-bytes_eq_example =
    verify_slot_sha256-bytes_eq board (λ s. toy_digest) hash_laws (λ k. image) slot_laws reliable
      600 toy_digest waiting (omega arith)

-- A metric too early, two starts, and a metric.
abbrev app_calls : List Call
app_calls =
    report_metric
    ∷ agent_start (
        some (record {
          firmware_version = some (codes "2.0");
          on_state = none;
          health = none;
          user = 0;
        }))
    ∷ agent_start none
    ∷ report_metric
    ∷ []

run_calls-expected_example :
    ((run_calls (codes "1.0") app_calls unstarted).0 ≡ err_state ∷ ok ∷ err_state ∷ ok ∷ [])
    × ((run_calls (codes "1.0") app_calls unstarted).1.threads ≡ 1)
    × (meshanics_agent_version (codes "1.0") (run_calls (codes "1.0") app_calls unstarted).1
        ≡ codes "2.0")
unfolding expected threads_for first_version asked_version
run_calls-expected_example = run_calls-expected (codes "1.0") app_calls

-- The number beside the update state counts the connections that wait.
abbrev host : Host (Book × ℕ)
host = record {
  reset_por = 8;
  reset_pin = 1;
  reset_software = 2;
  reset_watchdog = 16;
  reset_brownout = 4;
  get_reset_cause = λ d. some 8;
  get_device_id = λ n d. some (0xab ∷ 0x01 ∷ []);
  uptime = λ d. 5000;
  socket = λ d. (true, d);
  reuse_address = λ d. d;
  bind = λ port d. (true, d);
  listen = λ d. (true, d);
  close_listener = λ d. d;
  poll = λ d. (ltb 0 d.1, d);
  accept = λ d. (ltb 0 d.1, (d.0, d.1 - 1));
  local_address = λ d. some (codes "10.0.0.7");
  recv = λ n d. (true, d);
  send = λ s d. d;
  close = λ d. d;
}

abbrev about : About
about = record {
  board = codes "esp32_devkitc";
  http_port = 80;
  version = codes "1.2";
  key_id = codes "k1";
}

queue : IsQueue (beside toy ℕ) host (λ d. d.1)
queue = record {
  on_poll = λ d. (refl, refl);
  on_accept = λ d h. (lt→ltb 0 d.1 h, omega arith);
  on_recv = λ n d. (refl, refl);
  on_send = λ s d. refl;
  on_close = λ d. refl;
  on_counter = λ d. refl;
}

abbrev busy : Served (Book × ℕ)
busy = record { dev = (waiting, 3); requests_served = 9 }

serve_loop-all_example :
    ((serve_loop (beside toy ℕ) host about 5 busy).0 ≡ true)
    × ((serve_loop (beside toy ℕ) host about 5 busy).1.dev.1 ≡ 0)
    × ((serve_loop (beside toy ℕ) host about 5 busy).1.requests_served ≡ 12)
serve_loop-all_example =
    serve_loop-all (beside toy ℕ) host about (λ d. d.1) queue 5 busy (omega arith) (omega arith)

serve-answers_example :
    let (body, s2) =
      build_status
        (beside toy ℕ)
        host
        about
        (local_ip (beside toy ℕ) host about busy.dev)
        (record { dev = busy.dev; requests_served = 10 }) in
    ((serve (beside toy ℕ) host about busy).0 ≡ true)
    × ((serve (beside toy ℕ) host about busy).1.dev
        ≡ host.close (host.send (status_response body) s2.dev))
    × (length body < body_size)
    × (length (status_response body) < resp_size)
unfolding local_ip
serve-answers_example = serve-answers (beside toy ℕ) host about busy (omega arith) refl
