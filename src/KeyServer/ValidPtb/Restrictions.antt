-- ===== src/KeyServer/ValidPtb/Restrictions.antt =====
-- What the checks accept, and what the accessors return for an accepted transaction.
use seal.Base.{
  ℕ, ◌≤◌, ◌≡◌, ◌↔◌, refl, List, [], ◌∷◌, length, get_elem?, All, All-get, All₂, some, false, ◌||◌,
  ||-false, U8, ltb, arith, >>=-ok, expect_some, ok, ok_or, reject_if-ok, traverse-ok, ap, subst,
}
use seal.Utils.{is_empty}
use seal.KeyServer.ValidPtb.Approval.{
  Approves, IsValid, check_command_sound, check_command_complete, get_key_id-Approves,
}
use seal.KeyServer.Errors.{invalid_ptb}
use seal.KeyServer.ValidPtb.{too_many_commands, empty_input_or_command, invalid_first_command}
use seal.KeyServer.ValidPtb.{
  Sui, Ptb, max_commands, check_command, check_commands, try_from, inner_id, inner_ids, pkg_id,
}

module _ (s : Sui) where
  open s use {Command, move_call}

  check_commands_sound :
      (ptb : Ptb s) (pkg : List U8) (commands : List Command)
      → check_commands s ptb pkg commands ≡ ok tt
      → All (λ c. (id : List U8) × Approves s ptb pkg c id) commands
  unfolding check_commands
  check_commands_sound ptb pkg [] h = tt
  check_commands_sound ptb pkg (command ∷ commands) h =
      let (u, first, rest) = >>=-ok (check_command s ptb pkg command) _ h in
      (check_command_sound s ptb pkg command first, check_commands_sound ptb pkg commands rest)

  check_commands_complete :
      (ptb : Ptb s) (pkg : List U8) (commands : List Command)
      → All (λ c. (id : List U8) × Approves s ptb pkg c id) commands
      → check_commands s ptb pkg commands ≡ ok tt
  unfolding check_commands
  check_commands_complete ptb pkg [] h = refl
  check_commands_complete ptb pkg (command ∷ commands) h =
      rw (check_command_complete s ptb pkg command h.0.0 h.0.1)
        (check_commands_complete ptb pkg commands h.1)

  filled_cons :
      {A : Type 0} (l : List A) → is_empty l ≡ false → (x : A) × (xs : List A) × (l ≡ x ∷ xs)
  filled_cons [] h = cc
  filled_cons (x ∷ xs) h = (x, xs, refl)

  not_more : (n : ℕ) → ltb max_commands n ≡ false → n ≤ 100
  not_more n h = ground (arith, h)

  try_from_sound : (ptb v : Ptb s) → try_from s ptb ≡ ok v → IsValid s ptb
  unfolding try_from
  try_from_sound ptb v h =
      let (few, h1) =
        reject_if-ok (ltb max_commands (length ptb.commands)) (invalid_ptb too_many_commands) _ h in
      let (filled, h2) =
        reject_if-ok (is_empty ptb.inputs || is_empty ptb.commands)
          (invalid_ptb empty_input_or_command) _ h1 in
      let (first, at, h3) = >>=-ok (expect_some (get_elem? ptb.commands 0)) _ h2 in
      let (first_cmd, is_call, h4) =
        >>=-ok (ok_or (move_call first) (invalid_ptb invalid_first_command)) _ h3 in
      let (u, checked, h5) = >>=-ok (check_commands s ptb first_cmd.package_id ptb.commands) _ h4 in
      let (inputs, commands) = ||-false (is_empty ptb.inputs) (is_empty ptb.commands) filled in
      let (first_input, other_inputs, has_input) = filled_cons ptb.inputs inputs in
      let (first_command, other_commands, has_command) = filled_cons ptb.commands commands in
      record {
        few = not_more (length ptb.commands) few;
        first_input = first_input;
        other_inputs = other_inputs;
        some_input = has_input;
        first_command = first_command;
        other_commands = other_commands;
        some_command = has_command;
        pkg = first_cmd.package_id;
        approved = check_commands_sound ptb first_cmd.package_id ptb.commands checked;
      }

  first_approved :
      (ptb : Ptb s) (v : IsValid s ptb)
      → (get_elem? ptb.commands 0 ≡ some v.first_command)
        × (id : List U8) × Approves s ptb v.pkg v.first_command id
  first_approved ptb v =
      let all =
        subst (All (λ c. (id : List U8) × Approves s ptb v.pkg c id)) v.some_command v.approved in
      (ap (λ (l : List Command). get_elem? l 0) v.some_command, all.0.0, all.0.1)

  try_from_complete : (ptb : Ptb s) → IsValid s ptb → try_from s ptb ≡ ok ptb
  unfolding try_from
  try_from_complete ptb v =
      let few : ltb max_commands (length ptb.commands) ≡ false = ground (arith, v.few) in
      let (at, id, a) = first_approved ptb v in
      rw
        (
          few,
          ap is_empty v.some_input,
          ap is_empty v.some_command,
          at,
          a.is_call,
          a.in_package,
          check_commands_complete ptb v.pkg ptb.commands v.approved,
        )
        refl

  -- The server accepts a transaction, and returns it as it is, exactly when it has at most 100
  -- commands, an input and a command, and every command calls into one package a function whose name
  -- starts with seal_approve, with inputs for arguments, the first of which names a pure input that
  -- decodes to an id, which may be empty.
  pub try_from-iff-IsValid : (ptb : Ptb s) → (try_from s ptb ≡ ok ptb) ↔ IsValid s ptb
  try_from-iff-IsValid ptb = (try_from_sound ptb ptb, try_from_complete ptb)

  inner_id-ok :
      (ptb : Ptb s) (pkg : List U8) (command : Command) (id : List U8)
      → Approves s ptb pkg command id
      → inner_id s ptb command ≡ ok id
  unfolding inner_id
  inner_id-ok ptb pkg command id a = rw (a.is_call, get_key_id-Approves s ptb pkg command id a) refl

  pkg_id-ok : (ptb : Ptb s) (v : IsValid s ptb) → pkg_id s ptb ≡ ok v.pkg
  unfolding pkg_id
  pkg_id-ok ptb v = let (at, id, a) = first_approved ptb v in rw (at, a.is_call, a.in_package) refl

  -- For an accepted transaction `pkg_id` and `inner_ids` return, without a panic: one id for each
  -- command, in order, each decoded from the pure input that the first argument of its command names.
  pub inner_ids-try_from :
      (ptb v : Ptb s)
      → try_from s ptb ≡ ok v
      → (pkg : List U8) × (ids : List (List U8)) × (pkg_id s ptb ≡ ok pkg)
        × (inner_ids s ptb ≡ ok ids)
        × All₂ (Approves s ptb pkg) ptb.commands ids
  unfolding inner_ids
  inner_ids-try_from ptb v h =
      let valid = try_from_sound ptb v h in
      let (ids, returns, each) =
        traverse-ok (Approves s ptb valid.pkg) (inner_id s ptb) ptb.commands (λ c m.
          let (id, a) =
            All-get (λ c. (id : List U8) × Approves s ptb valid.pkg c id) ptb.commands c
              valid.approved m in
          (id, inner_id-ok ptb valid.pkg c id a, a)) in
      (valid.pkg, ids, pkg_id-ok ptb valid, returns, each)
