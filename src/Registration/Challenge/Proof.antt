-- ===== src/Registration/Challenge/Proof.antt =====
-- What an accepted proof has shown, and that a challenge serves once.
use sdl_control.Base.{
  ℕ, ◌≡◌, ◌≤◌, refl, List, String, Option, none, some, Bool, true, false, ◌==◌, nat_eq, string_eq,
  ltb, arith, Option-cases, inl, inr, ap, ◌∙◌, sym, beq_refl,
}
use text.Mathlib.TextEquality.{eq_iff}
use sdl_control.Base.Utf8.{utf8}
use sdl_control.Base.Map.{get, delete, get-delete}
use sdl_control.Protocol.Ip.{bytes_eq, bytes_eq_iff}
use sdl_control.Users.State.{UserManager, Outcome, UmAuthDevice, Result, ok, err}
use sdl_control.Users.Tickets.{auth_device}
use sdl_control.Users.Tickets.Use.{Admits, auth_device-Admits}
use sdl_control.Registration.Challenge.{
  DeviceAuthChallengeState, AuthState, DeviceAuthProof, AuthReply, refused, authed,
  challenge_expired, Verify, authed_reply, proof_found, handle_device_auth_proof,
}
use sdl_control.Registration.Challenge.Payload.{build_device_auth_signed_payload}

module _ (save : UserManager → Bool) (key_hex : List ℕ → String) (verify : Verify) where
  -- The payload that a device signs for a challenge
  abbrev pub signed : DeviceAuthProof → DeviceAuthChallengeState → List ℕ
  signed p c =
      build_device_auth_signed_payload (utf8 p.challenge_id) c.nonce (utf8 p.device_id)
        p.device_pub_key

  abbrev pub authenticates : UserManager → DeviceAuthChallengeState → ℕ → ℕ → Outcome UmAuthDevice
  authenticates m c checked now =
      auth_device save m c.user_id c.group_name c.device_id c.ticket c.device_pub_key
        (key_hex c.device_pub_key) checked now

  -- What is known of a challenge when its proof was accepted
  pub record Proved (m : UserManager) (c : DeviceAuthChallengeState) (p : DeviceAuthProof)
      (read checked now : ℕ) (r : UmAuthDevice) : Type 0 where
    pub in_time : read ≤ c.expire_at
    pub of_device : c.device_id ≡ p.device_id
    pub of_key : c.device_pub_key ≡ p.device_pub_key
    pub verified : verify p.device_pub_key (signed p c) p.signature ≡ true
    pub admitted : (authenticates m c checked now).result ≡ ok r

  authed_result :
      (c : DeviceAuthChallengeState) (v : Result UmAuthDevice) (r : UmAuthDevice) (re : Bool)
      → authed_reply c v ≡ authed r re
      → v ≡ ok r
  unfolding authed_reply
  authed_result c (ok x) r re h = cc
  authed_result c (err x) r re h = absurd (cc)

  found_lem :
      (st : AuthState) (p : DeviceAuthProof) (read checked now : ℕ) (c : DeviceAuthChallengeState)
      (r : UmAuthDevice) (re : Bool)
      → (proof_found save key_hex verify st p read checked now (some c)).0 ≡ authed r re
      → Proved st.users c p read checked now r
  unfolding proof_found
  found_lem st p read checked now c r re h =
      let done = authenticates st.users c checked now in
      let passed : (ltb c.expire_at read ≡ false)
          × ((c.device_id == p.device_id) ≡ true)
          × (bytes_eq c.device_pub_key p.device_pub_key ≡ true)
          × (verify p.device_pub_key (signed p c) p.signature ≡ true)
          × (authed_reply c done.result ≡ authed r re) =
        ground arith in
      record {
        in_time = ground (arith, passed.0);
        of_device = (eq_iff c.device_id p.device_id).0 passed.1;
        of_key = (bytes_eq_iff c.device_pub_key p.device_pub_key).0 passed.2;
        verified = passed.3;
        admitted = authed_result c done.result r re passed.4;
      }

  unknown_refused :
      (st : AuthState) (p : DeviceAuthProof) (read checked now : ℕ)
      → get st.challenges p.challenge_id ≡ none
      → (handle_device_auth_proof save key_hex verify st p read checked now).0
        ≡ refused challenge_expired
  unfolding handle_device_auth_proof proof_found
  unknown_refused st p read checked now h =
      let left : AuthState = record st { challenges = delete st.challenges p.challenge_id } in
      ap (λ f. (proof_found save key_hex verify left p read checked now f).0) h

  module _ (st : AuthState) (p : DeviceAuthProof) (read checked now : ℕ) where
    abbrev handled : AuthReply × AuthState
    handled = handle_device_auth_proof save key_hex verify st p read checked now

    -- A proof that authenticates a device answers a challenge that was stored under its id and had
    -- not run out, for the device and the key of the challenge; its signature was verified over the
    -- id, the nonce, the device and the key; and the ticket of the challenge, still unused and valid
    -- at that time, names the user and the group of the record, which has the device and the hash
    -- of the key.
    pub proof_lem :
        (r : UmAuthDevice) (re : Bool)
        → handled.0 ≡ authed r re
        → (c : DeviceAuthChallengeState) × (get st.challenges p.challenge_id ≡ some c)
          × Proved st.users c p read checked now r
          × Admits st.users c.user_id r.group_name c.ticket checked
          × (r.user_id ≡ c.user_id)
          × (r.device_id ≡ p.device_id)
          × (r.pub_key_hex ≡ key_hex p.device_pub_key)
    unfolding handle_device_auth_proof proof_found
    proof_lem r re h = elim (Option-cases (get st.challenges p.challenge_id)) [
      | inl e ↦ absurd (ground arith)
      | inr (c, e) ↦
          let left : AuthState = record st { challenges = delete st.challenges p.challenge_id } in
          let proved =
            found_lem left p read checked now c r re (
              ap (λ f. (proof_found save key_hex verify left p read checked now f).0) (sym e)
              ∙ h) in
          let admits =
            auth_device-Admits save st.users c.user_id c.group_name c.device_id c.ticket
              (key_hex c.device_pub_key) c.device_pub_key checked now proved.admitted in
          (
            c,
            e,
            proved,
            admits.0,
            admits.1,
            admits.2 ∙ proved.of_device,
            admits.3 ∙ ap key_hex proved.of_key,
          )
    ]

    found_challenges :
        (left : AuthState) (found : Option DeviceAuthChallengeState)
        → (proof_found save key_hex verify left p read checked now found).1.challenges
          ≡ left.challenges
    unfolding proof_found
    found_challenges left none = refl
    found_challenges left (some c) = ground arith

    -- Whatever the answer to a proof, the challenge is used up and the others stay.
    handled_challenges : handled.1.challenges ≡ delete st.challenges p.challenge_id
    unfolding handle_device_auth_proof
    handled_challenges =
        found_challenges (record st { challenges = delete st.challenges p.challenge_id })
          (get st.challenges p.challenge_id)

    -- After the answer to a proof, be it a success or a refusal, every further proof for the same
    -- challenge is answered by challenge_expired.
    pub proof_once :
        (q : DeviceAuthProof) (read' checked' now' : ℕ)
        → q.challenge_id ≡ p.challenge_id
        → (handle_device_auth_proof save key_hex verify handled.1 q read' checked' now').0
          ≡ refused challenge_expired
    proof_once q read' checked' now' same = unknown_refused handled.1 q read' checked' now' (
        ap (get handled.1.challenges) same
        ∙ (ap (λ m. get m p.challenge_id) handled_challenges
            ∙ (get-delete st.challenges p.challenge_id p.challenge_id
                ∙ rw (beq_refl p.challenge_id))))
