-- ===== src/ExitNodes/Approval.antt =====
-- Approval and revocation of an exit node.
use sdl_control.Base.{
  ◌≡◌, String, Option, none, some, Bool, true, false, ◌&&◌, ◌==◌, string_eq, if◌then◌else◌, [], ◌∷◌,
  arith, ap, ◌∙◌,
}
use text.Mathlib.TextEquality.{eq_iff}
use sdl_control.Base.Text.{trim_space}
use sdl_control.Base.Map.{Map, get, put, delete, get-put, get-delete}
use sdl_control.Users.Devices.{Devices}
use sdl_control.ExitNodes.{
  Approvals, devices_of, flag, is_approved, is_authed_device_for_user, approve_exit_node,
  drop_empty, revoke_exit_node,
}

module _ (approved : Approvals) (u d : String) where
  put_approved :
      (ds : Map String Bool) (x y : String)
      → is_approved (put approved u ds) x y
        ≡ (if u == x then flag (get ds y) else is_approved approved x y)
  unfolding is_approved devices_of
  put_approved ds x y = ground (arith, get-put approved u ds x)

  -- What is approved once a device was marked
  marked :
      (x y : String)
      → is_approved (put approved u (put (devices_of (get approved u)) d true)) x y
        ≡ (if u == x && d == y then true else is_approved approved x y)
  unfolding is_approved flag
  marked x y =
      put_approved (put (devices_of (get approved u)) d true) x y
      ∙ ground (arith, get-put (devices_of (get approved u)) d true y, same)
    where
      same : (u == x) ≡ true → get approved u ≡ get approved x
      same e = ap (get approved) ((eq_iff u x).0 e)

  dropped :
      (ds : Map String Bool) (x y : String)
      → is_approved (drop_empty approved u ds) x y
        ≡ (if u == x then flag (get ds y) else is_approved approved x y)
  unfolding drop_empty is_approved devices_of get flag
  dropped [] x y = ground (arith, get-delete approved u x)
  dropped (e ∷ ds) x y = put_approved (e ∷ ds) x y

  unmarked :
      (x y : String)
      → is_approved (drop_empty approved u (delete (devices_of (get approved u)) d)) x y
        ≡ (if u == x && d == y then false else is_approved approved x y)
  unfolding is_approved flag
  unmarked x y =
      dropped (delete (devices_of (get approved u)) d) x y
      ∙ ground (arith, get-delete (devices_of (get approved u)) d y, same)
    where
      same : (u == x) ≡ true → get approved u ≡ get approved x
      same e = ap (get approved) ((eq_iff u x).0 e)

-- An approval that succeeds was for a device that is authenticated for its user; it approves this
-- device of this user, and changes nothing for the others.
pub approve_exit_node_lem :
    (devices : Devices) (store : Option Bool) (approved : Approvals) (user device x y : String)
    → (approve_exit_node devices store approved user device).0 ≡ none
    → (is_authed_device_for_user devices (trim_space user) (trim_space device) ≡ true)
      × (is_approved (approve_exit_node devices store approved user device).1 x y ≡ (
          if trim_space user == x && trim_space device == y
          then true
          else is_approved approved x y))
unfolding approve_exit_node
approve_exit_node_lem devices none approved user device x y h = absurd (ground (arith, h))
approve_exit_node_lem devices (some false) approved user device x y h = absurd (ground (arith, h))
approve_exit_node_lem devices (some true) approved user device x y h =
    ground (arith, h, marked approved (trim_space user) (trim_space device) x y)

-- A revocation that succeeds was for a device that was approved; it takes the approval of this device
-- of this user away, and changes nothing for the others.
pub revoke_exit_node_lem :
    (store : Option Bool) (approved : Approvals) (user device x y : String)
    → (revoke_exit_node store approved user device).0 ≡ none
    → (is_approved approved (trim_space user) (trim_space device) ≡ true)
      × (is_approved (revoke_exit_node store approved user device).1 x y ≡ (
          if trim_space user == x && trim_space device == y
          then false
          else is_approved approved x y))
unfolding revoke_exit_node
revoke_exit_node_lem none approved user device x y h = absurd (ground (arith, h))
revoke_exit_node_lem (some taken) approved user device x y h =
    ground (arith, h, unmarked approved (trim_space user) (trim_space device) x y)
