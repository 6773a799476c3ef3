-- ===== src/Shared/Dispatcher/Choice.antt =====
-- Which of the registered providers handles a command.
use dapper.Base.{
  ℕ, ◌≤◌, ◌<◌, ◌≡◌, refl, ap, ◌∙◌, sym, String, Option, none, some, List, [], ◌∷◌, ◌++◌, leb, arith,
  if◌then◌else◌,
}
use dapper.Base.Text.{Codes, codes}
use dapper.Shared.Dispatcher.{
  Providers, Entry, Command, fields, not_a_dict, Reply, error_message, failed_response, insert,
  sort, register_command_provider, first_able, reply_of, dispatch_debug_command,
}

module _ (providers : Providers) (name : String) where
  open providers use {Provider, can_handle}

  abbrev E : Type 0
  E = Entry providers

  -- The better of two: the one of the higher priority, or the earlier.
  unfoldable pub better : Option E → Option E → Option E
  better none b = b
  better (some a) none = some a
  better (some a) (some b) = if leb b.0 a.0 then some a else some b

  -- The entry by itself, if it can handle the name.
  unfoldable pub able : E → Option E
  able e = if can_handle e.1 name then some e else none

  -- The best entry, with no order of the list.
  unfoldable pub best : List E → Option E
  unfolding better able
  best [] = none
  best (e ∷ es) = better (able e) (best es)

  IsBelow : ℕ → List E → Type 0
  IsBelow n [] = Unit
  IsBelow n (e ∷ es) = (e.0 ≤ n) × IsBelow n es

  IsSorted : List E → Type 0
  IsSorted [] = Unit
  IsSorted (e ∷ es) = IsBelow e.0 es × IsSorted es

  IsBelow-weaken : (n k : ℕ) (es : List E) → n ≤ k → IsBelow n es → IsBelow k es
  unfolding IsBelow
  IsBelow-weaken n k [] h b = tt
  IsBelow-weaken n k (e ∷ es) h b = (omega (arith, b.0), IsBelow-weaken n k es h b.1)

  insert-IsBelow :
      (n : ℕ) (e : E) (es : List E) → e.0 ≤ n → IsBelow n es → IsBelow n (insert providers e es)
  unfolding IsBelow insert
  insert-IsBelow n e [] h b = (h, tt)
  insert-IsBelow n e (f ∷ es) h b = ground (arith, insert-IsBelow n e es)

  insert-IsSorted : (e : E) (es : List E) → IsSorted es → IsSorted (insert providers e es)
  unfolding IsSorted IsBelow insert
  insert-IsSorted e [] s = (tt, tt)
  insert-IsSorted e (f ∷ es) s =
      ground (arith, insert-IsSorted e es, insert-IsBelow f.0 e es, IsBelow-weaken f.0 e.0 es)

  sort-IsSorted : (es : List E) → IsSorted (sort providers es)
  unfolding IsSorted sort
  sort-IsSorted [] = tt
  sort-IsSorted (e ∷ es) = insert-IsSorted e (sort providers es) (sort-IsSorted es)

  -- In a sorted list the first is the best.
  better_first :
      (e : E) (es : List E)
      → IsBelow e.0 es
      → better (some e) (first_able providers name es) ≡ some e
  unfolding better first_able IsBelow
  better_first e [] b = refl
  better_first e (f ∷ es) b = ground (arith, better_first e es)

  first-best : (es : List E) → IsSorted es → first_able providers name es ≡ best es
  unfolding first_able best able IsSorted better
  first-best [] s = refl
  first-best (e ∷ es) s = ground (arith, first-best es, better_first e es)

  better_assoc : (a b c : Option E) → better (better a b) c ≡ better a (better b c)
  unfolding better
  better_assoc none b c = refl
  better_assoc (some a) none c = refl
  better_assoc (some a) (some b) none = ground arith
  better_assoc (some a) (some b) (some c) = ground arith

  better-none : (a : Option E) → a ≡ better a none
  unfolding better
  better-none none = refl
  better-none (some a) = refl

  best-append : (es fs : List E) → best (es ++ fs) ≡ better (best es) (best fs)
  unfolding best
  best-append [] fs = unfold better in refl
  best-append (e ∷ es) fs =
      ap (better (able e)) (best-append es fs) ∙ sym (better_assoc (able e) (best es) (best fs))

  -- A lower entry may be put before a higher one.
  better_swap :
      (e f : E) (b : Option E)
      → e.0 < f.0
      → better (able f) (better (able e) b) ≡ better (able e) (better (able f) b)
  unfolding better able
  better_swap e f none h = ground arith
  better_swap e f (some c) h = ground arith

  best-insert : (e : E) (es : List E) → best (insert providers e es) ≡ better (able e) (best es)
  unfolding best insert
  best-insert e [] = refl
  best-insert e (f ∷ es) = ground (arith, best-insert e es, better_swap e f (best es))

  best-sort : (es : List E) → best (sort providers es) ≡ best es
  unfolding best sort
  best-sort [] = refl
  best-sort (e ∷ es) = best-insert e (sort providers es) ∙ ap (better (able e)) (best-sort es)

-- The answer that a client is promised: a failed response to a request that has an identifier.
abbrev pub answer_to : {RequestId : Type 0} → Option RequestId → Codes → Reply RequestId
answer_to none message = error_message message
answer_to (some cmd_id) message = failed_response cmd_id message

-- What a command asks for.
pub record Asked (Arguments RequestId : Type 0) : Type 0 where
  pub name : String
  pub arguments : Option Arguments
  pub cmd_id : Option RequestId

abbrev pub parts_of :
    {Arguments RequestId : Type 0} → Command Arguments RequestId → Asked Arguments RequestId
parts_of not_a_dict = record { name = ""; arguments = none; cmd_id = none }
parts_of (fields name arguments cmd_id) = record {
  name = name;
  arguments = arguments;
  cmd_id = cmd_id;
}

-- The list after registrations, the first one first.
module _ (providers : Providers) where
  unfoldable pub register_all :
      List (Entry providers) → List (Entry providers) → List (Entry providers)
  unfolding register_command_provider
  register_all es [] = es
  register_all es ((priority, provider) ∷ more) =
      register_all (register_command_provider providers es provider priority) more

  module _ (name : String) where
    best-register :
        (es : List (Entry providers)) (provider : providers.Provider) (priority : ℕ)
        → best providers name (register_command_provider providers es provider priority)
          ≡ better providers name
              (best providers name es)
              (best providers name ((priority, provider) ∷ []))
    unfolding register_command_provider
    best-register es provider priority =
        best-sort providers name (es ++ (priority, provider) ∷ [])
        ∙ best-append providers name es ((priority, provider) ∷ [])

    best-register_all :
        (es more : List (Entry providers))
        → best providers name (register_all es more)
          ≡ better providers name (best providers name es) (best providers name more)
    unfolding register_all
    best-register_all es [] = unfold best in better-none providers name (best providers name es)
    best-register_all es ((priority, provider) ∷ more) =
        best-register_all (register_command_provider providers es provider priority) more
        ∙ ap (λ o. better providers name o (best providers name more))
            (best-register es provider priority)
        ∙ better_assoc providers name (best providers name es)
            (best providers name ((priority, provider) ∷ [])) (best providers name more)
        ∙ ap (better providers name (best providers name es))
            (sym (best-append providers name ((priority, provider) ∷ []) more))

    register_all-IsSorted :
        (more : List (Entry providers)) (es : List (Entry providers))
        → IsSorted providers name es
        → IsSorted providers name (register_all es more)
    unfolding register_all register_command_provider
    register_all-IsSorted [] es s = s
    register_all-IsSorted ((priority, provider) ∷ more) es s =
        register_all-IsSorted more (sort providers (es ++ (priority, provider) ∷ []))
          (sort-IsSorted providers name (es ++ (priority, provider) ∷ []))

    first-register_all :
        (more : List (Entry providers))
        → first_able providers name (register_all [] more) ≡ best providers name more
    first-register_all more =
        first-best providers name (register_all [] more)
          (register_all-IsSorted more [] (unfold IsSorted in tt))
        ∙ best-register_all [] more
        ∙ unfold best better in refl

  -- After any registrations a command is given to the provider of the highest priority among those
  -- that can handle its name, the earliest registered of several, and to no other; an exception of
  -- that provider is answered by one message. A command that no provider can handle is answered by
  -- one message and changes nothing. The answer is a failed response where the command has an
  -- identifier, and an error message otherwise. What is no dictionary counts as a command with an
  -- empty name, no arguments and no identifier.
  pub dispatch-best :
      (more : List (Entry providers)) (s : providers.State)
      (command : Command providers.Arguments providers.RequestId)
      → dispatch_debug_command providers (register_all [] more) s command ≡ (
          let asked = parts_of command in
          elim (best providers asked.name more) [
            | none ↦
                (s, answer_to asked.cmd_id (codes "Unknown command: " ++ codes asked.name) ∷ [])
            | some e ↦
                let (s', exception) =
                  providers.handle e.1 s asked.cmd_id asked.name
                    (elim asked.arguments [ none ↦ providers.no_arguments | some a ↦ a ])
                    command in
                (
                  s',
                  elim exception [
                    | none ↦ []
                    | some exc ↦
                        answer_to asked.cmd_id (
                          codes "Error handling command "
                          ++ (codes asked.name ++ (codes ": " ++ exc)))
                        ∷ []
                  ],
                )
          ])
  unfolding dispatch_debug_command reply_of
  dispatch-best more s not_a_dict = rw (dispatch_debug_command, first-register_all "" more) refl
  dispatch-best more s (fields name none none) =
      rw (dispatch_debug_command, first-register_all name more) refl
  dispatch-best more s (fields name none (some i)) =
      rw (dispatch_debug_command, first-register_all name more) refl
  dispatch-best more s (fields name (some a) none) =
      rw (dispatch_debug_command, first-register_all name more) refl
  dispatch-best more s (fields name (some a) (some i)) =
      rw (dispatch_debug_command, first-register_all name more) refl
