-- ===== src/Tests/Commands.antt =====
-- Two providers, which are numbers, and a session that is the list of the commands handled.
use dapper.Base.{
  ℕ, ◌≡◌, String, none, some, List, [], ◌∷◌, ◌++◌, nat_eq, string_eq, ◌==◌, if◌then◌else◌,
}
use dapper.Base.Text.{codes}
use dapper.Shared.Dispatcher.{Providers, Entry, Command, fields, dispatch_debug_command}
use dapper.Shared.Dispatcher.Choice.{best, register_all, answer_to, dispatch-best}

abbrev providers : Providers
providers = record {
  Provider = ℕ;
  State = List ℕ;
  Arguments = List String;
  RequestId = ℕ;
  no_arguments = [];
  same = λ p q. p == q;
  can_handle = λ p name. name == "next";
  handle =
      λ p s request name arguments command. (p ∷ s, if p == 2 then some (codes "busy") else none);
}

abbrev registered : List (Entry providers)
registered = (0, 1) ∷ (100, 2) ∷ (100, 3) ∷ []

abbrev command : Command (List String) ℕ
command = fields "next" none (some 7)

dispatch-best_example :
    dispatch_debug_command providers (register_all providers [] registered) [] command
    ≡ elim (best providers "next" registered) [
      | none ↦ ([], answer_to (some 7) (codes "Unknown command: " ++ codes "next") ∷ [])
      | some e ↦ (
        e.1 ∷ [],
        elim (if e.1 == 2 then some (codes "busy") else none) [
          | none ↦ []
          | some exc ↦
              answer_to
                (some 7)
                (codes "Error handling command " ++ (codes "next" ++ (codes ": " ++ exc)))
              ∷ []
        ],
      )
    ]
dispatch-best_example = dispatch-best providers registered [] command
