-- ===== src/Tests/Proving.antt =====
-- The device "d" of user "u" asks for its authentication, signs its challenge and proves its key. A
-- signature verifies here if it is the first byte of the key.
use sdl_control.Base.{
  ℕ, ◌≡◌, ◌≢◌, ◌≤◌, ◌<◌, refl, List, String, [], ◌∷◌, Option, none, some, Bool, true, false, arith,
  string_eq, All, length,
}
use sdl_control.Base.Map
use sdl_control.Users.State.{UserManager, UmDeviceTicket, UmAuthDevice, new_user_manager}
use sdl_control.Users.Tickets.{check_authed_device}
use sdl_control.Users.Tickets.Use.{Admits}
use sdl_control.Registration.Challenge.{
  DeviceAuthChallengeState, AuthState, DeviceAuthRequest, DeviceAuthProof, AuthReply,
  challenge_sent, authed, refused, challenge_expired, Random, Verify, handle_device_auth,
  handle_device_auth_proof,
}
use sdl_control.Registration.Challenge.Payload.{payload_inj}
use sdl_control.Registration.Challenge.Proof.{Proved, proof_lem, proof_once}
use sdl_control.Registration.Challenge.Complete.{answer, device_auth_completes}

abbrev held : UmDeviceTicket
held = record {
  ticket = "t";
  user_id = "u";
  group_name = "home.ms.net";
  expire_at = 100_000_000_000;
  used = false;
  created_at = 0;
}

abbrev start : AuthState
start = record {
  users = record new_user_manager {
    users = ("u", record { user_id = "u"; name = "u"; domain = "ms.net"; created_at = 0 }) ∷ [];
    device_tickets = ("t", held) ∷ [];
  };
  challenges = [];
}

abbrev takes : UserManager → Bool
takes m = true

abbrev hex : List ℕ → String
hex k = "k1"

abbrev first_byte : Verify
first_byte (k ∷ ks) payload (s ∷ []) = true
first_byte _ payload _ = false

abbrev asks : DeviceAuthRequest
asks = record {
  user_id = "u";
  group = "home";
  device_id = "d";
  ticket = "t";
  device_pub_key = 7 ∷ [];
}

abbrev drawn : Random
drawn = some (9 ∷ 8 ∷ [], "c1")

abbrev waiting : AuthState
waiting = (handle_device_auth hex start asks drawn 5 6 7).1

sent :
    (handle_device_auth hex start asks drawn 5 6 7).0 ≡ challenge_sent "c1" (9 ∷ 8 ∷ []) 60000 false
unfolding handle_device_auth sdl_control.Users.Tickets.validate_device_auth Map.get
    sdl_control.Users.Groups.normalize_group_for_user sdl_control.Base.Text.contains_dot
    sdl_control.Base.Text.trim_space
sent = refl

abbrev proof : DeviceAuthProof
proof = answer "c1" (7 ∷ []) asks

abbrev record_of : AuthReply → UmAuthDevice
record_of (authed r re) = r
record_of _ = record {
  user_id = "";
  group_name = "";
  device_id = "";
  display_name = "";
  pub_key_hex = "";
  authed_at = 0;
  auth_expire_at = 0;
}

abbrev device : UmAuthDevice
device = record_of (handle_device_auth_proof takes hex first_byte waiting proof 8 9 10).0

proves :
    (handle_device_auth_proof takes hex first_byte waiting proof 8 9 10).0 ≡ authed device false
unfolding handle_device_auth_proof Map.get handle_device_auth
    sdl_control.Users.Tickets.validate_device_auth sdl_control.Users.Groups.normalize_group_for_user
    sdl_control.Base.Text.contains_dot sdl_control.Base.Text.trim_space Map.put
    sdl_control.Protocol.Ip.bytes_eq sdl_control.Users.Tickets.auth_device
    sdl_control.Base.Text.has_suffix
proves = refl

proof_lem_example :
    (c : DeviceAuthChallengeState) × (Map.get waiting.challenges "c1" ≡ some c)
    × Proved takes hex first_byte waiting.users c proof 8 9 10 device
    × Admits waiting.users c.user_id device.group_name c.ticket 9
    × (device.user_id ≡ c.user_id)
    × (device.device_id ≡ "d")
    × (device.pub_key_hex ≡ "k1")
proof_lem_example = proof_lem takes hex first_byte waiting proof 8 9 10 device false proves

proof_once_example :
    (handle_device_auth_proof takes hex first_byte
      (handle_device_auth_proof takes hex first_byte waiting proof 8 9 10).1
      proof
      11
      12
      13).0
    ≡ refused challenge_expired
proof_once_example = proof_once takes hex first_byte waiting proof 8 9 10 proof 11 12 13 refl

device_auth_completes_example :
    (r : UmAuthDevice) × ((handle_device_auth_proof takes hex first_byte waiting proof 8 9 10).0
      ≡ authed r false)
    × (check_authed_device
          (handle_device_auth_proof takes hex first_byte waiting proof 8 9 10).1.users
          r.group_name
          "d"
          (7 ∷ [])
          "k1"
          11
        ≡ none)
unfolding Map.get
device_auth_completes_example =
    device_auth_completes takes hex first_byte start asks drawn 5 6 7 "c1" (9 ∷ 8 ∷ []) (7 ∷ [])
      60000 false held 8 9 10 11 (λ s. refl) sent refl (omega arith) (omega arith) refl
      (omega arith)

abbrev some_bytes : List ℕ
some_bytes = 1 ∷ []

abbrev other_bytes : List ℕ
other_bytes = 2 ∷ 3 ∷ []

payload_inj_example :
    (some_bytes ≡ some_bytes)
    × (other_bytes ≡ other_bytes)
    × (some_bytes ≡ some_bytes)
    × (other_bytes ≡ other_bytes)
payload_inj_example =
    payload_inj some_bytes other_bytes some_bytes other_bytes some_bytes other_bytes some_bytes
      other_bytes
      (
        omega arith,
        (
          omega arith,
          (
            omega arith,
            (omega arith, (omega arith, (omega arith, (omega arith, (omega arith, tt))))),
          ),
        ),
      )
      refl
