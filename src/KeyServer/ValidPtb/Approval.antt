-- ===== src/KeyServer/ValidPtb/Approval.antt =====
-- crates/key-server/src/valid_ptb.rs: what a command of an accepted transaction is, and that the body
-- of the loop over the commands accepts exactly those.
use seal.Base.{
  ℕ, ◌≡◌, ap, ap₂, sym, ◌∙◌, refl, List, [], ◌∷◌, ◌++◌, map, length, get_elem?, All, Option, some,
  none, some-injective, Bool, true, false, not, ◌||◌, ||-false, &&-elim, ◌=8◌, =8_iff, U8, u8,
  bytes_eq, bytes_eq_iff, >>=-ok, ok, ◌≤◌, ok_or, ok_or-ok, reject_if, reject_if-ok,
}
use seal.KeyServer.Errors.{invalid_ptb}
use seal.KeyServer.ValidPtb.{
  non_move_call, only_pure_inputs, invalid_function_or_package, empty_args, invalid_index_for_first,
  invalid_first_parameter, MoveCall, Sui, Ptb, seal_approve, starts_with, is_some, pure_input,
  get_key_id, any_other, check_command,
}

-- "seal_approve"
abbrev prefix : List U8
prefix =
    map u8 (b's' ∷ b'e' ∷ b'a' ∷ b'l' ∷ b'_' ∷ b'a' ∷ b'p' ∷ b'p' ∷ b'r' ∷ b'o' ∷ b'v' ∷ b'e' ∷ [])

starts_with_sound : (p t : List U8) → starts_with p t ≡ true → (rest : List U8) × (t ≡ p ++ rest)
unfolding starts_with
starts_with_sound [] t h = (t, refl)
starts_with_sound (x ∷ p) [] h = cc
starts_with_sound (x ∷ p) (y ∷ t) h =
    let (same, more) = &&-elim (x =8 y) (starts_with p t) h in
    let (rest, e) = starts_with_sound p t more in
    (rest, ap₂ (λ a l. a ∷ l) (sym ((=8_iff x y).0 same)) e)

starts_with_complete : (p rest : List U8) → starts_with p (p ++ rest) ≡ true
unfolding starts_with
starts_with_complete [] rest = refl
starts_with_complete (x ∷ p) rest = rw ((=8_iff x x).1 refl) (starts_with_complete p rest)

module _ (s : Sui) where
  open s use {Argument, CallArg, Command, input_index, pure_bytes, move_call, id_from_bytes}

  -- A command that asks to approve an id: a call into the package of a function whose name starts with
  -- seal_approve. Its arguments are inputs, and the input that the first of them names is pure and
  -- holds the id, which may be empty.
  pub record Approves (ptb : Ptb s) (pkg : List U8) (command : Command) (id : List U8)
      : Type 0 where
    pub call : MoveCall Argument
    pub is_call : move_call command ≡ some call
    pub in_package : call.package_id ≡ pkg
    pub name_rest : List U8
    pub named : call.function ≡ prefix ++ name_rest
    pub first : Argument
    pub others : List Argument
    pub has_arguments : call.arguments ≡ first ∷ others
    pub inputs_only : All (λ a. (i : ℕ) × (input_index a ≡ some i)) call.arguments
    pub index : ℕ
    pub is_input : input_index first ≡ some index
    pub arg : CallArg
    pub at_index : get_elem? ptb.inputs index ≡ some arg
    pub bytes : List U8
    pub is_pure : pure_bytes arg ≡ some bytes
    pub decodes : id_from_bytes bytes ≡ some id

  -- The restrictions on a transaction.
  pub record IsValid (ptb : Ptb s) : Type 0 where
    pub few : length ptb.commands ≤ 100
    pub first_input : CallArg
    pub other_inputs : List CallArg
    pub some_input : ptb.inputs ≡ first_input ∷ other_inputs
    pub first_command : Command
    pub other_commands : List Command
    pub some_command : ptb.commands ≡ first_command ∷ other_commands
    pub pkg : List U8
    pub approved : All (λ c. (id : List U8) × Approves ptb pkg c id) ptb.commands

  -- Every argument is an input.
  abbrev AreInputs : List Argument → Type 0
  AreInputs = All (λ a. (i : ℕ) × (input_index a ≡ some i))

  any_other_sound : (args : List Argument) → any_other s args ≡ false → AreInputs args
  unfolding any_other
  any_other_sound [] h = tt
  any_other_sound (a ∷ args) h =
      let (one, more) = ||-false (not (is_some (input_index a))) (any_other s args) h in
      (known (input_index a) one, any_other_sound args more)
    where
      known : (o : Option ℕ) → not (is_some o) ≡ false → (i : ℕ) × (o ≡ some i)
      known none e = cc
      known (some i) e = (i, refl)

  any_other_complete : (args : List Argument) → AreInputs args → any_other s args ≡ false
  unfolding any_other
  any_other_complete [] h = refl
  any_other_complete (a ∷ args) ((i, e), h) = rw e (any_other_complete args h)

  -- What `get_key_id` reads.
  record Reads (ptb : Ptb s) (arguments : List Argument) (id : List U8) : Type 0 where
    first : Argument
    others : List Argument
    has_arguments : arguments ≡ first ∷ others
    index : ℕ
    is_input : input_index first ≡ some index
    arg : CallArg
    at_index : get_elem? ptb.inputs index ≡ some arg
    bytes : List U8
    is_pure : pure_bytes arg ≡ some bytes
    decodes : id_from_bytes bytes ≡ some id

  pure_input_sound :
      (inputs : List CallArg) (i : ℕ) (bytes : List U8)
      → pure_input s inputs i ≡ some bytes
      → (arg : CallArg) × (get_elem? inputs i ≡ some arg) × (pure_bytes arg ≡ some bytes)
  pure_input_sound inputs i bytes h = known (get_elem? inputs i) h
    where
      known :
          (o : Option CallArg)
          → elim o [ none ↦ none | some arg ↦ pure_bytes arg ] ≡ some bytes
          → (arg : CallArg) × (o ≡ some arg) × (pure_bytes arg ≡ some bytes)
      known none e = cc
      known (some arg) e = (arg, refl, e)

  pure_input_complete :
      (inputs : List CallArg) (i : ℕ) (arg : CallArg) (bytes : List U8)
      → get_elem? inputs i ≡ some arg
      → pure_bytes arg ≡ some bytes
      → pure_input s inputs i ≡ some bytes
  pure_input_complete inputs i arg bytes at p =
      ap (λ o. elim o [ none ↦ none | some a ↦ pure_bytes a ]) at ∙ p

  cons_of :
      (l : List Argument) (a : Argument)
      → get_elem? l 0 ≡ some a
      → (others : List Argument) × (l ≡ a ∷ others)
  cons_of [] a h = cc
  cons_of (b ∷ l) a h = (l, ap (λ c. c ∷ l) (some-injective b a h))

  get_key_id_sound :
      (ptb : Ptb s) (call : MoveCall Argument) (id : List U8)
      → get_key_id s ptb call ≡ ok id
      → Reads ptb call.arguments id
  unfolding get_key_id
  get_key_id_sound ptb call id h =
      let (first, found, h1) =
        >>=-ok (ok_or (get_elem? call.arguments 0) (invalid_ptb empty_args)) _ h in
      let (index, is_input, h2) =
        >>=-ok (ok_or (input_index first) (invalid_ptb invalid_index_for_first)) _ h1 in
      let (bytes, pure, h3) =
        >>=-ok (ok_or (pure_input s ptb.inputs index) (invalid_ptb invalid_first_parameter)) _ h2 in
      let (others, e) = cons_of call.arguments first (ok_or-ok _ _ found) in
      let (arg, at_index, is_pure) = pure_input_sound ptb.inputs index bytes (ok_or-ok _ _ pure) in
      record {
        first = first;
        others = others;
        has_arguments = e;
        index = index;
        is_input = ok_or-ok _ _ is_input;
        arg = arg;
        at_index = at_index;
        bytes = bytes;
        is_pure = is_pure;
        decodes = ok_or-ok _ _ h3;
      }

  pub get_key_id-Approves :
      (ptb : Ptb s) (pkg : List U8) (command : Command) (id : List U8)
      (a : Approves ptb pkg command id)
      → get_key_id s ptb a.call ≡ ok id
  unfolding get_key_id
  get_key_id-Approves ptb pkg command id a =
      rw
        (
          a.has_arguments,
          a.is_input,
          pure_input_complete ptb.inputs a.index a.arg a.bytes a.at_index a.is_pure,
          a.decodes,
        )
        refl

  not-false : (t : Bool) → not t ≡ false → t ≡ true
  not-false true h = refl
  not-false false h = cc

  pub check_command_sound :
      (ptb : Ptb s) (pkg : List U8) (command : Command)
      → check_command s ptb pkg command ≡ ok tt
      → (id : List U8) × Approves ptb pkg command id
  unfolding check_command
  check_command_sound ptb pkg command h =
      let (call, is_call, h1) =
        >>=-ok (ok_or (move_call command) (invalid_ptb non_move_call)) _ h in
      let (pure, h2) =
        reject_if-ok (any_other s call.arguments) (invalid_ptb only_pure_inputs) _ h1 in
      let (id, key_id, h3) = >>=-ok (get_key_id s ptb call) _ h2 in
      let r = get_key_id_sound ptb call id key_id in
      let (good, same) =
        last (starts_with seal_approve call.function) (bytes_eq call.package_id pkg) h3 in
      let (name_rest, named) = starts_with_sound prefix call.function good in
      (
        id,
        record {
          call = call;
          is_call = ok_or-ok (move_call command) (invalid_ptb non_move_call) is_call;
          in_package = (bytes_eq_iff call.package_id pkg).0 same;
          name_rest = name_rest;
          named = named;
          first = r.first;
          others = r.others;
          has_arguments = r.has_arguments;
          inputs_only = any_other_sound call.arguments pure;
          index = r.index;
          is_input = r.is_input;
          arg = r.arg;
          at_index = r.at_index;
          bytes = r.bytes;
          is_pure = r.is_pure;
          decodes = r.decodes;
        },
      )
    where
      last :
          (t u : Bool)
          → reject_if (not t || not u) (invalid_ptb invalid_function_or_package) ≡ ok tt
          → (t ≡ true) × (u ≡ true)
      last true true e = (refl, refl)
      last true false e = cc
      last false u e = cc

  pub check_command_complete :
      (ptb : Ptb s) (pkg : List U8) (command : Command) (id : List U8)
      → Approves ptb pkg command id
      → check_command s ptb pkg command ≡ ok tt
  unfolding check_command
  check_command_complete ptb pkg command id a =
      let named : starts_with seal_approve a.call.function ≡ true =
        ap (starts_with prefix) a.named ∙ starts_with_complete prefix a.name_rest in
      rw
        (
          a.is_call,
          any_other_complete a.call.arguments a.inputs_only,
          get_key_id-Approves ptb pkg command id a,
          named,
          (bytes_eq_iff a.call.package_id pkg).1 a.in_package,
        )
        refl
