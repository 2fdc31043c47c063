-- ===== src/Gates/FileName.antt =====
-- Where a log dump lands: `std::filesystem::path(log_dir) / filename` for a name that
-- `check_log_filename` (litearm_driver/src/safety_gates.cpp) accepts.
use Prim.Native.Char.{Char, code}
use text.Mathlib.TextLemmas.{append-nil, append_assoc, nil-append, cons-append}
use litearm_ros.Prelude.{
  String, ◌<>◌, is_empty, same_text, has_char, Bool, true, false, List, [], ◌∷◌, ◌==◌, ◌≡◌, ◌∙◌, ap,
  if◌then◌else◌, arith, ◌||◌,
}
use litearm_ros.Gates.{check_log_filename}

abbrev single : Char → String
single c = String.◌∷◌ c String.[]

abbrev ends_with_slash : String → Bool
ends_with_slash String.[] = false
ends_with_slash (String.◌∷◌ c String.[]) = code c == b'/'
ends_with_slash (String.◌∷◌ c (String.◌∷◌ d s)) = ends_with_slash (String.◌∷◌ d s)

-- `operator/` of POSIX paths for a name that does not begin with a separator.
unfoldable pub path_join : String → String → String
path_join dir name = if is_empty dir || ends_with_slash dir then dir <> name else dir <> "/" <> name

abbrev outer : List String → List String
outer [] = []
outer (_ ∷ stack) = stack

-- A directory as the stack of its components, innermost first; `..` at the root stays there.
enter : String → List String → List String
enter c stack =
    if is_empty c || same_text c "."
    then stack
    else if same_text c ".."
    then outer stack
    else c ∷ stack

-- The components of `rest` entered one after another; `current` is the one being read.
walk : List String → String → String → List String
walk stack current String.[] = enter current stack
walk stack current (String.◌∷◌ c s) =
    let inside = walk stack (current <> single c) s in
    let next = walk (enter current stack) "" s in if code c == b'/' then next else inside

pub resolve : String → List String
unfolding walk
resolve path = walk [] "" path

single-append :
    (cur : String) (c : Char) (s : String) → (cur <> single c) <> s ≡ cur <> String.◌∷◌ c s
single-append cur c s =
    append_assoc cur (single c) s
    ∙ ap (λ t. cur <> t) (cons-append c String.[] s ∙ ap (String.◌∷◌ c) (nil-append s))

-- A text without a separator is one component.
walk_plain :
    (stack : List String) (current name : String)
    → has_char b'/' name ≡ false
    → walk stack current name ≡ enter (current <> name) stack
unfolding walk has_char
walk_plain stack current String.[] h = rw (append-nil current)
walk_plain stack current (String.◌∷◌ c s) h =
    ground (arith, walk_plain stack (current <> single c) s, single-append current c s)

-- Past a separator what was read is entered, and a plain name after it is the last component.
walk_slash :
    (stack : List String) (current name : String)
    → has_char b'/' name ≡ false
    → walk stack current ("/" <> name) ≡ enter name (enter current stack)
unfolding walk
walk_slash stack current name h =
    rw (cons-append, nil-append)
      (walk_plain (enter current stack) "" name h
        ∙ ap (λ t. enter t (enter current stack)) (nil-append name))

walk-join :
    (stack : List String) (current dir name : String)
    → has_char b'/' name ≡ false
    → walk stack current (dir <> "/" <> name) ≡ enter name (walk stack current dir)
unfolding walk
walk-join stack current String.[] name h = rw nil-append (walk_slash stack current name h)
walk-join stack current (String.◌∷◌ c s) name h = rw (cons-append c s ("/" <> name)) (
    ground (
      arith,
      walk-join (enter current stack) "" s name h,
      walk-join stack (current <> single c) s name h,
    ))

walk-append :
    (stack : List String) (current dir name : String)
    → ends_with_slash dir ≡ true
    → has_char b'/' name ≡ false
    → walk stack current (dir <> name) ≡ enter name (walk stack current dir)
unfolding walk enter
walk-append stack current String.[] name e h = cc
walk-append stack current (String.◌∷◌ c String.[]) name e h =
    rw (cons-append, nil-append)
      (ground (arith, walk_plain (enter current stack) "" name h, nil-append name))
walk-append stack current (String.◌∷◌ c (String.◌∷◌ d s)) name e h =
    rw (cons-append c (String.◌∷◌ d s) name) (
      ground (
        arith,
        walk-append (enter current stack) "" (String.◌∷◌ d s) name e h,
        walk-append stack (current <> single c) (String.◌∷◌ d s) name e h,
      ))

accepted :
    (name : String) (stack : List String)
    → (check_log_filename name).ok ≡ true
    → (has_char b'/' name ≡ false) × (enter name stack ≡ name ∷ stack)
unfolding check_log_filename enter
accepted name stack h = ground arith

walk_joined :
    (dir name : String)
    → has_char b'/' name ≡ false
    → walk [] "" (path_join dir name) ≡ enter name (walk [] "" dir)
unfolding path_join walk enter
walk_joined String.[] name h =
    rw nil-append (walk_plain [] "" name h ∙ ap (λ t. enter t []) (nil-append name))
walk_joined (String.◌∷◌ c s) name h =
    ground (arith, walk-append [] "" (String.◌∷◌ c s) name, walk-join [] "" (String.◌∷◌ c s) name)

-- A name that the gate accepts is written directly in the log directory, wherever that is: the
-- components of the joined path are those of the directory, and then the name itself.
pub log_file_stays :
    (dir name : String)
    → (check_log_filename name).ok ≡ true
    → resolve (path_join dir name) ≡ name ∷ resolve dir
unfolding resolve
log_file_stays dir name h =
    let facts = accepted name (walk [] "" dir) h in walk_joined dir name facts.0 ∙ facts.1
