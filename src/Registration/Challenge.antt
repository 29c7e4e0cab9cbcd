-- ===== src/Registration/Challenge.antt =====
-- control/registration.go HandleDeviceAuthPacket, HandleDeviceAuthProofPacket and their challenges in
-- control/controller.go. The store, the hash of a key (toPubKeyHex), the random numbers and
-- ed25519.Verify are parameters; a time is a count of nanoseconds.
pub mod Payload
pub mod Proof
pub mod Complete
use sdl_control.Base.{
  ℕ, ◌+◌, ◌*◌, ◌/◌, List, [], ◌∷◌, String, Option, none, some, Bool, true, false, ◌||◌, not, ◌==◌,
  nat_eq, string_eq, ltb, if◌then◌else◌, is_empty,
}
use sdl_control.Base.Utf8.{utf8}
use sdl_control.Base.Map.{Map, get, put, delete}
use sdl_control.Protocol.Ip.{bytes_eq}
use sdl_control.Users.State.{
  UserManager, UmAuthDevice, UmError, Result, ok, err, Outcome, authed_device_key, key_empty,
  no_random,
}
use sdl_control.Users.Tickets.{validate_device_auth, auth_device}
use sdl_control.Registration.Challenge.Payload.{build_device_auth_signed_payload}

abbrev pub device_auth_challenge_ttl : ℕ
device_auth_challenge_ttl = 60 * 1_000_000_000

pub record DeviceAuthChallengeState : Type 0 where
  pub user_id : String
  pub group_name : String
  pub device_id : String
  pub ticket : String
  pub device_pub_key : List ℕ
  pub nonce : List ℕ
  pub expire_at : ℕ
  pub reauth_required : Bool

abbrev pub Challenges : Type 0
Challenges = Map String DeviceAuthChallengeState

-- The part of the controller that the two handlers change
pub record AuthState : Type 0 where
  pub users : UserManager
  pub challenges : Challenges

-- for id, state := range c.authChallenges { if now.After(state.ExpireAt) { delete } }
unfoldable pub prune_challenges : Challenges → ℕ → Challenges
prune_challenges [] now = []
prune_challenges ((id, state) ∷ rest) now =
    let kept = prune_challenges rest now in
    if ltb state.expire_at now then kept else (id, state) ∷ kept

-- What a request of a device for its authentication says.
pub record DeviceAuthRequest : Type 0 where
  pub user_id : String
  pub group : String
  pub device_id : String
  pub ticket : String
  pub device_pub_key : List ℕ

pub record DeviceAuthProof : Type 0 where
  pub challenge_id : String
  pub device_id : String
  pub device_pub_key : List ℕ
  pub signature : List ℕ

-- The reasons of a refusal
pub data AuthReason : Type 0 where
  challenge_expired device_key_mismatch invalid_signature : AuthReason
  auth_check_failed : UmError → AuthReason

pub data AuthReply : Type 0 where
  refused : AuthReason → AuthReply
  challenge_sent : String → List ℕ → ℕ → Bool → AuthReply
  authed : UmAuthDevice → Bool → AuthReply
  no_reply : UmError → AuthReply

-- The 32 bytes of the nonce and the text of the 16 of the id, `none` where the random source fails.
abbrev pub Random : Type 0
Random = Option (List ℕ × String)

-- newDeviceAuthChallenge; `made` and `now` are the two times that the clock is read.
unfoldable pub new_device_auth_challenge :
    Challenges → DeviceAuthRequest → String → Bool → Random → ℕ → ℕ → AuthReply × Challenges
unfolding prune_challenges
new_device_auth_challenge cs req group reauth none made now = (no_reply no_random, cs)
new_device_auth_challenge cs req group reauth (some (nonce, id)) made now =
    let challenge : DeviceAuthChallengeState = record {
      user_id = req.user_id;
      group_name = group;
      device_id = req.device_id;
      ticket = req.ticket;
      device_pub_key = req.device_pub_key;
      nonce = nonce;
      expire_at = made + device_auth_challenge_ttl;
      reauth_required = reauth;
    } in
    (
      challenge_sent id nonce ((made + device_auth_challenge_ttl) / 1_000_000) reauth,
      put (prune_challenges cs now) id challenge,
    )

-- A device that was authenticated with another key
other_key : Option UmAuthDevice → String → Bool
other_key none key_hex = false
other_key (some existing) key_hex = not (existing.pub_key_hex == key_hex)

auth_request_checked :
    (List ℕ → String)
    → AuthState
    → DeviceAuthRequest
    → Random
    → ℕ
    → ℕ
    → Result String
    → AuthReply × AuthState
unfolding other_key new_device_auth_challenge
auth_request_checked key_hex st req random made now (err e) = (refused (auth_check_failed e), st)
auth_request_checked key_hex st req random made now (ok group) =
    let existing = get st.users.authed_devices (authed_device_key group req.device_id) in
    let (reply, challenges) =
      new_device_auth_challenge st.challenges req group
        (other_key existing (key_hex req.device_pub_key)) random made now in
    if is_empty req.device_pub_key
    then (refused (auth_check_failed key_empty), st)
    else (reply, record st { challenges = challenges })

-- HandleDeviceAuthPacket; `checked` is the time of the check of the ticket.
unfoldable pub handle_device_auth :
    (List ℕ → String) → AuthState → DeviceAuthRequest → Random → ℕ → ℕ → ℕ → AuthReply × AuthState
unfolding auth_request_checked
handle_device_auth key_hex st req random checked made now =
    auth_request_checked key_hex st req random made now
      (validate_device_auth st.users req.user_id req.group req.device_id req.ticket checked)

-- consumeDeviceAuthChallenge
unfoldable pub consume_device_auth_challenge :
    Challenges → String → Option DeviceAuthChallengeState × Challenges
consume_device_auth_challenge cs id = (get cs id, delete cs id)

abbrev pub Verify : Type 0
Verify = List ℕ → List ℕ → List ℕ → Bool

authed_reply : DeviceAuthChallengeState → Result UmAuthDevice → AuthReply
authed_reply c (ok r) = authed r c.reauth_required
authed_reply c (err e) = refused (auth_check_failed e)

-- The proof for a challenge, which is deleted by now
proof_found :
    (UserManager → Bool)
    → (List ℕ → String)
    → Verify
    → AuthState
    → DeviceAuthProof
    → ℕ
    → ℕ
    → ℕ
    → Option DeviceAuthChallengeState
    → AuthReply × AuthState
unfolding authed_reply
proof_found save key_hex verify st p read checked now none = (refused challenge_expired, st)
proof_found save key_hex verify st p read checked now (some c) =
    let payload =
      build_device_auth_signed_payload (utf8 p.challenge_id) c.nonce (utf8 p.device_id)
        p.device_pub_key in
    let done =
      auth_device save st.users c.user_id c.group_name c.device_id c.ticket c.device_pub_key
        (key_hex c.device_pub_key) checked now in
    if ltb c.expire_at read
    then (refused challenge_expired, st)
    else if not (c.device_id == p.device_id) || not (bytes_eq c.device_pub_key p.device_pub_key)
    then (refused device_key_mismatch, st)
    else if not (verify p.device_pub_key payload p.signature)
    then (refused invalid_signature, st)
    else (authed_reply c done.result, record st { users = done.state })

-- HandleDeviceAuthProofPacket; `read` is the time of the test on the challenge, `checked` and `now`
-- are those of AuthDevice.
unfoldable pub handle_device_auth_proof :
    (UserManager → Bool)
    → (List ℕ → String)
    → Verify
    → AuthState
    → DeviceAuthProof
    → ℕ
    → ℕ
    → ℕ
    → AuthReply × AuthState
unfolding consume_device_auth_challenge proof_found
handle_device_auth_proof save key_hex verify st p read checked now =
    let (found, challenges) = consume_device_auth_challenge st.challenges p.challenge_id in
    proof_found save key_hex verify (record st { challenges = challenges }) p read checked now found
