-- ===== src/Registration/Challenge/Complete.antt =====
-- A device that signs its challenge in time is authenticated.
use sdl_control.Base.{
  ℕ, ◌+◌, ◌≡◌, ◌≤◌, refl, List, [], ◌∷◌, String, none, some, Bool, true, false, nat_eq, string_eq,
  is_empty, arith, Option-cases, inl, inr, Bool-cases, ap, ◌∙◌, beq_refl,
}
use text.Mathlib.TextEquality.{eq_iff}
use sdl_control.Base.Utf8.{utf8}
use sdl_control.Base.Map.{get, get-put}
use sdl_control.Protocol.Ip.{bytes_eq_iff}
use sdl_control.Users.State.{
  UserManager, UmDeviceTicket, UmAuthDevice, Result, Result-cases, ok, err, save_locked,
  default_device_auth_ttl, authed_device_key,
}
use sdl_control.Users.Groups.{normalize_group_for_user, normalize_lem, normalize_nonempty}
use sdl_control.Users.Tickets.{
  validate_device_auth, auth_device, auth_finish, auth_commit, auth_record, check_authed_device,
}
use sdl_control.Users.Tickets.Use.{check-auth}
use sdl_control.Registration.Challenge.{
  DeviceAuthChallengeState, AuthState, DeviceAuthRequest, DeviceAuthProof, challenge_sent, authed,
  Random, Verify, device_auth_challenge_ttl, prune_challenges, other_key, new_device_auth_challenge,
  auth_request_checked, handle_device_auth, authed_reply, proof_found, handle_device_auth_proof,
}
use sdl_control.Registration.Challenge.Payload.{build_device_auth_signed_payload}
use sdl_control.Registration.Challenge.Proof.{signed, authenticates}

-- A ticket that was good for a group is good for its full name until it runs out.
pub validate_again :
    (m : UserManager) (user group device ticket full : String) (now later : ℕ) (t : UmDeviceTicket)
    → validate_device_auth m user group device ticket now ≡ ok full
    → get m.device_tickets ticket ≡ some t
    → later ≤ t.expire_at
    → validate_device_auth m user full device ticket later ≡ ok full
unfolding validate_device_auth
validate_again m user group device ticket full now later t h e in_time =
    elim (Option-cases (get m.users user)) [
      | inl f ↦ absurd (ground arith)
      | inr (u, f) ↦ elim (Result-cases (normalize_group_for_user group u.domain)) [
        | inl (g, k) ↦ ground (
          arith,
          h,
          normalize_lem group u.domain k,
          normalize_nonempty group u.domain k,
          eq_iff group "",
          eq_iff g "",
        )
        | inr (x, k) ↦ absurd (ground arith)
      ]
    ]

-- An authentication whose ticket is valid succeeds when the store takes the new state.
pub auth_device_succeeds :
    (save : UserManager → Bool) (m : UserManager) (user group device ticket full : String)
    (key : List ℕ) (key_hex : String) (checked now : ℕ)
    → ((s : UserManager) → save s ≡ true)
    → is_empty key ≡ false
    → validate_device_auth m user group device ticket checked ≡ ok full
    → (auth_device save m user group device ticket key key_hex checked now).result
      ≡ ok (auth_record m user full device key_hex now)
unfolding auth_device auth_finish auth_commit save_locked
auth_device_succeeds save m user group device ticket full [] key_hex checked now saves ne v =
    absurd (cc)
auth_device_succeeds save m user group device ticket full (b ∷ bs) key_hex checked now saves ne v =
    rw (v, saves _) refl

module _ (key_hex : List ℕ → String) (st : AuthState) (req : DeviceAuthRequest) (random : Random)
    (made now : ℕ) where
  -- The challenge that answers a request
  abbrev pub challenge_for : String → List ℕ → Bool → DeviceAuthChallengeState
  challenge_for group nonce re = record {
    user_id = req.user_id;
    group_name = group;
    device_id = req.device_id;
    ticket = req.ticket;
    device_pub_key = req.device_pub_key;
    nonce = nonce;
    expire_at = made + device_auth_challenge_ttl;
    reauth_required = re;
  }

  -- What was found and what is left when a request was answered by a challenge
  abbrev Answered : Result String → AuthState → String → List ℕ → Bool → Type 0
  Answered v after id nonce re =
      (group : String) × (v ≡ ok group)
      × (is_empty req.device_pub_key ≡ false)
      × (after.users ≡ st.users)
      × (get after.challenges id ≡ some (challenge_for group nonce re))

  new_challenge_lem :
      (group : String) (reauth : Bool) (random : Random) (id : String) (nonce : List ℕ) (ms : ℕ)
      (re : Bool)
      → (new_device_auth_challenge st.challenges req group reauth random made now).0
        ≡ challenge_sent id nonce ms re
      → get (new_device_auth_challenge st.challenges req group reauth random made now).1 id
        ≡ some (challenge_for group nonce re)
  unfolding new_device_auth_challenge
  new_challenge_lem group reauth none id nonce ms re h = absurd (cc)
  new_challenge_lem group reauth (some (drawn, fresh)) id nonce ms re h =
      let same_id : fresh ≡ id = cc in
      let same_nonce : drawn ≡ nonce = cc in
      let same_re : reauth ≡ re = cc in
      let c = challenge_for group drawn reauth in
      get-put (prune_challenges st.challenges now) fresh c id
      ∙ rw (same_id, beq_refl id, same_nonce, same_re) refl

  checked_lem :
      (v : Result String) (id : String) (nonce : List ℕ) (ms : ℕ) (re : Bool)
      → (auth_request_checked key_hex st req random made now v).0 ≡ challenge_sent id nonce ms re
      → Answered v (auth_request_checked key_hex st req random made now v).1 id nonce re
  unfolding auth_request_checked new_device_auth_challenge
  checked_lem (err e) id nonce ms re h = absurd (cc)
  checked_lem (ok group) id nonce ms re h =
      let existing = get st.users.authed_devices (authed_device_key group req.device_id) in
      let reauth = other_key existing (key_hex req.device_pub_key) in
      elim (Bool-cases (is_empty req.device_pub_key)) [
        | inl e ↦ absurd (ground arith)
        | inr e ↦ (
          group,
          refl,
          e,
          rw e refl,
          rw e (new_challenge_lem group reauth random id nonce ms re (ground (arith, h, e))),
        )
      ]

-- The proof that a device sends
abbrev pub answer : String → List ℕ → DeviceAuthRequest → DeviceAuthProof
answer id sig req = record {
  challenge_id = id;
  device_id = req.device_id;
  device_pub_key = req.device_pub_key;
  signature = sig;
}

module _ (save : UserManager → Bool) (key_hex : List ℕ → String) (verify : Verify) where
  found_succeeds :
      (st : AuthState) (c : DeviceAuthChallengeState) (p : DeviceAuthProof) (read checked now : ℕ)
      (r : UmAuthDevice)
      → read ≤ c.expire_at
      → c.device_id ≡ p.device_id
      → c.device_pub_key ≡ p.device_pub_key
      → verify p.device_pub_key (signed save key_hex verify p c) p.signature ≡ true
      → (authenticates save key_hex verify st.users c checked now).result ≡ ok r
      → ((proof_found save key_hex verify st p read checked now (some c)).0
          ≡ authed r c.reauth_required)
        × ((proof_found save key_hex verify st p read checked now (some c)).1.users
            ≡ (authenticates save key_hex verify st.users c checked now).state)
  unfolding proof_found authed_reply
  found_succeeds st c p read checked now r in_time device key good done = ground (
    arith,
    (eq_iff c.device_id p.device_id).1 device,
    (bytes_eq_iff c.device_pub_key p.device_pub_key).1 key,
    good,
    done,
    in_time,
  )

  proof_succeeds :
      (st : AuthState) (c : DeviceAuthChallengeState) (p : DeviceAuthProof) (full : String)
      (read checked now : ℕ)
      → ((s : UserManager) → save s ≡ true)
      → get st.challenges p.challenge_id ≡ some c
      → read ≤ c.expire_at
      → c.device_id ≡ p.device_id
      → c.device_pub_key ≡ p.device_pub_key
      → verify p.device_pub_key (signed save key_hex verify p c) p.signature ≡ true
      → is_empty c.device_pub_key ≡ false
      → validate_device_auth st.users c.user_id c.group_name c.device_id c.ticket checked ≡ ok full
      → ((handle_device_auth_proof save key_hex verify st p read checked now).0
          ≡ authed
              (auth_record st.users c.user_id full c.device_id (key_hex c.device_pub_key) now)
              c.reauth_required)
        × ((handle_device_auth_proof save key_hex verify st p read checked now).1.users
            ≡ (authenticates save key_hex verify st.users c checked now).state)
  unfolding handle_device_auth_proof
  proof_succeeds st c p full read checked now saves e in_time device key good ne v = rw e (
      found_succeeds _ c p read checked now _ in_time device key good (
        auth_device_succeeds save st.users c.user_id c.group_name c.device_id c.ticket full
          c.device_pub_key (key_hex c.device_pub_key) checked now saves ne v))

  -- If a request was answered by a challenge, and the device sends its key and a signature of the
  -- challenge that verifies, within a minute of the challenge and while its ticket is valid, to a
  -- store that takes every state, then it is authenticated, and from then on a check of it with that
  -- key succeeds for thirty days.
  pub device_auth_completes :
      (st : AuthState) (req : DeviceAuthRequest) (random : Random) (asked made issued : ℕ)
      (id : String) (nonce sig : List ℕ) (ms : ℕ) (re : Bool) (t : UmDeviceTicket)
      (read checked now later : ℕ)
      → ((s : UserManager) → save s ≡ true)
      → (handle_device_auth key_hex st req random asked made issued).0
        ≡ challenge_sent id nonce ms re
      → get st.users.device_tickets req.ticket ≡ some t
      → checked ≤ t.expire_at
      → read ≤ made + device_auth_challenge_ttl
      → verify req.device_pub_key
          (build_device_auth_signed_payload (utf8 id) nonce (utf8 req.device_id) req.device_pub_key)
          sig
        ≡ true
      → later ≤ now + default_device_auth_ttl
      → (r : UmAuthDevice) × ((handle_device_auth_proof save key_hex verify
            (handle_device_auth key_hex st req random asked made issued).1
            (answer id sig req)
            read
            checked
            now).0
          ≡ authed r re)
        × (check_authed_device
              (handle_device_auth_proof save key_hex verify
                (handle_device_auth key_hex st req random asked made issued).1
                (answer id sig req)
                read
                checked
                now).1.users
              r.group_name
              req.device_id
              req.device_pub_key
              (key_hex req.device_pub_key)
              later
            ≡ none)
  unfolding handle_device_auth
  device_auth_completes st req random asked made issued id nonce sig ms re t read checked now later
        saves sent held in_time soon good fresh =
      let v = validate_device_auth st.users req.user_id req.group req.device_id req.ticket asked in
      let (group, valid, some_key, users, stored) =
        checked_lem key_hex st req random made issued v id nonce ms re sent in
      let again =
        validate_again st.users req.user_id req.group req.device_id req.ticket group asked checked t
          valid held in_time in
      let c = challenge_for key_hex st req random made issued group nonce re in
      let asked_state = auth_request_checked key_hex st req random made issued v in
      let valid_now =
        ap (λ m. validate_device_auth m c.user_id c.group_name c.device_id c.ticket checked) users
        ∙ again in
      let (replied, left) =
        proof_succeeds asked_state.1 c (answer id sig req) group read checked now saves stored soon
          refl refl good some_key valid_now in
      let check =
        check-auth save asked_state.1.users c.user_id c.group_name c.device_id c.ticket
          (key_hex c.device_pub_key) c.device_pub_key checked now
          (auth_device_succeeds save asked_state.1.users c.user_id c.group_name c.device_id c.ticket
            group c.device_pub_key (key_hex c.device_pub_key) checked now saves some_key valid_now)
          c.device_pub_key (key_hex c.device_pub_key) later some_key in
      (
        auth_record asked_state.1.users c.user_id group c.device_id (key_hex c.device_pub_key) now,
        replied,
        rw left (check ∙ ground (arith, fresh, beq_refl (key_hex c.device_pub_key))),
      )
