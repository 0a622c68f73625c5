-- ===== src/Tests/Entering.antt =====
-- The command on the small package.
use liqvera.Prelude.{◌≡◌, refl, [], ◌∷◌, some, true}
use liqvera.Python.{codes}
use liqvera.Entry.{Shell, Environment, main}
use liqvera.Entry.Exit.{IsFinished, main-IsFinished}
use liqvera.Tests.Frozen.{toy_platform, toy_root}
use liqvera.Tests.Opening.{toy-evaluates}

abbrev shell : Shell
shell = record { upper = λ s. s; is_absolute = λ s. true; locate = λ s. some toy_root }

abbrev environment : Environment
environment =
    (codes "HOME", codes "/root") ∷ (codes "LIQVERA_FROZEN_PACKAGE", codes "/package") ∷ []

exits : (main toy_platform shell environment).0 ≡ 0
unfolding main liqvera.Entry.start liqvera.Entry.finish liqvera.Entry.load_analyzer_configuration
    liqvera.Entry.contains liqvera.Entry.lookup liqvera.Python.starts_with liqvera.Python.str_eq
exits = rw toy-evaluates refl

main-IsFinished_example : IsFinished toy_platform shell environment
main-IsFinished_example = main-IsFinished toy_platform shell environment exits
