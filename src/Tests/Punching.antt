-- ===== src/Tests/Punching.antt =====
-- One punch session of the clients 1 and 2.
use sdl_control.Base.{
  ℕ, ◌==◌, if◌then◌else◌, ◌≡◌, ◌≢◌, refl, [], ◌∷◌, none, some, Bool, true, false, All, length,
  nat_eq, string_eq, pair_eq, arith,
}
use sdl_control.Base.Map
use sdl_control.Base.Map.{Map}
use sdl_control.ExpireMap.{ExpireMap, new_expire_map, set}
use sdl_control.ExpireMap.Laws.{live}
use sdl_control.Protocol.Ip.{ipv4, to4, ip_to_uint32, bytes_eq}
use sdl_control.Network.Client.{ClientInfo, zero_client}
use sdl_control.Punch.State.{
  Key, PunchSession, PunchControl, PunchAck, PunchResult, waiting, failed, phase_waiting,
  result_timeout, punch_session_key,
}
use sdl_control.Punch.Session.{
  mismatches, handle_punch_ack, handle_punch_result, reconcile_punch_sessions,
}
use sdl_control.Punch.Retry.{failed_times}
use sdl_control.Punch.Outcome.{IsSettled, with_result, punch_result_lem}
use sdl_control.Punch.Outcome.Ack.{ack_revives}
use sdl_control.Punch.Deadlines.{is_late, timed_out, late_of, reconcile_lem}
use sdl_control.Punch.Endpoints.{build_punch_endpoints}
use sdl_control.Punch.Endpoints.Distinct.{IsDistinct, build_punch_endpoints-IsDistinct}

abbrev session : PunchSession
session = record {
  session_id = 7;
  source = 1;
  target = 2;
  attempt = 1;
  attempt_budget = 3;
  deadline_unix_ms = 50;
  trigger_reason = "";
  selection_policy = "";
  state = failed;
  requested_at = 0;
  last_reason = "";
  relay_fallback = true;
  ack = (2, false) ∷ [];
  results = [];
}

abbrev key : Key
key = (7, 1)

abbrev control : PunchControl
control = record {
  sessions = set (new_expire_map 100) 10 key session;
  pair_cooldown = new_expire_map 20;
  pair_retry = new_expire_map 200;
}

abbrev ack : Bool → PunchAck
ack accepted = record {
  session_id = 7;
  source = 1;
  attempt = 1;
  accepted = accepted;
  phase = phase_waiting;
  reason = "busy";
}

abbrev result : PunchResult
result = record {
  session_id = 7;
  source = 1;
  attempt = 1;
  code = result_timeout;
  phase = phase_waiting;
  reason = "no answer";
}

held_key : live control.sessions 20 (punch_session_key 7 1) ≡ some session
unfolding live sdl_control.ExpireMap.is_past Map.get set new_expire_map Map.put punch_session_key
held_key = refl

from_one : mismatches 1 1 ≡ false
unfolding mismatches
from_one = refl

punch_result_lem_example :
    ((handle_punch_result control 20 1 (some result)).error ≡ none)
    × (live (handle_punch_result control 20 1 (some result)).control.sessions 20 key ≡ (
        if (7, 1) == key
        then some (with_result session 1 result)
        else live control.sessions 20 key))
    × IsSettled control.pair_cooldown control.pair_retry
        (handle_punch_result control 20 1 (some result)).control.pair_cooldown
        (handle_punch_result control 20 1 (some result)).control.pair_retry
        20
        (with_result session 1 result)
punch_result_lem_example = punch_result_lem control 20 1 result session held_key from_one key

abbrev two : ℕ
two = 2

two_not_one : two ≢ 1
two_not_one = omega arith

ack_revives_example :
    (live
        (handle_punch_ack control 20 1 (some (ack true))).control.sessions
        20
        (punch_session_key 7 1)
      ≡ some (record session { ack = (2, false) ∷ (1, true) ∷ []; state = waiting }))
    × ((handle_punch_ack control 20 1 (some (ack true))).control.pair_retry ≡ control.pair_retry)
ack_revives_example =
    ack_revives control 20 1 (ack true) session held_key from_one two refl two_not_one refl

-- The session still waits.
abbrev late_control : PunchControl
late_control = record control {
  sessions = set (new_expire_map 100) 10 key (record session { state = waiting });
}

reconcile_lem_example :
    (Map.get (reconcile_punch_sessions late_control 90 60).sessions.entries key
      ≡ timed_out 60 (Map.get late_control.sessions.entries key))
    × All
        (λ e. is_late 60 e.1 ≡ false)
        (reconcile_punch_sessions late_control 90 60).sessions.entries
    × (live (reconcile_punch_sessions late_control 90 60).pair_cooldown 90 (1, 2) ≡ (
        if late_of 60 (1, 2) late_control.sessions.entries == 0
        then live late_control.pair_cooldown 90 (1, 2)
        else none))
    × (live (reconcile_punch_sessions late_control 90 60).pair_retry 90 (1, 2)
        ≡ failed_times 90
            (late_of 60 (1, 2) late_control.sessions.entries)
            (live late_control.pair_retry 90 (1, 2)))
    × (reconcile_punch_sessions (reconcile_punch_sessions late_control 90 60) 95 60
        ≡ reconcile_punch_sessions late_control 90 60)
reconcile_lem_example = reconcile_lem late_control 90 95 60 key (1, 2)

one_late : late_of 60 (1, 2) late_control.sessions.entries ≡ 1
unfolding set new_expire_map Map.put
one_late = refl

abbrev three : ℕ
three = 3

-- One endpoint twice, once in its sixteen-byte form.
abbrev reporting : ClientInfo
reporting = record zero_client {
  client_status = some (record {
    p2p_list = [];
    public_udp_endpoints =
        (record { ip = 1 ∷ 2 ∷ 3 ∷ 4 ∷ []; port = 99 })
        ∷ (record { ip = ipv4 1 2 3 4; port = 99 })
        ∷ [];
    local_udp_endpoints = (record { ip = 5 ∷ 6 ∷ 7 ∷ 8 ∷ []; port = 99 }) ∷ [];
    up_stream = 0;
    down_stream = 0;
    is_cone = true;
    punch_trigger_reason = "";
    recovery_punch_target = 0;
    update_time = 0;
    exit_node_advertised = false;
    exit_node_local_ready = false;
  });
}

build_punch_endpoints-IsDistinct_example : IsDistinct (build_punch_endpoints reporting)
build_punch_endpoints-IsDistinct_example = build_punch_endpoints-IsDistinct reporting

two_offered : length (build_punch_endpoints reporting) ≡ 2
unfolding build_punch_endpoints ipv4 to4 ip_to_uint32 bytes_eq
two_offered = refl
