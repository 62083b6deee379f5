-- ===== src/Compile/Grants.antt =====
-- `compileSpawnGrants` of internal/bytecode/bytecode.go.
use howlframe.Ast.{Node, type, value, is_form, is_string}
use howlframe.Compile.Monad.{
  Services, Compile, ◌>>=◌, ◌>>◌, pure, report, report_if, rest, grants_expected, grant_not_string,
  bad_grant,
}
use howlframe.Common.{
  [], none, some, str_append, false, str_eq, true, ◌∷◌, if◌then◌else◌, List, not, Bool, Option,
  String,
}

-- `capability.InheritFilesystem`
abbrev pub inherit_filesystem : String
inherit_filesystem = "inherit:filesystem"

abbrev pub parsed_grant : Option String → Node → Compile String
parsed_grant none entry = report (bad_grant (value entry)) entry
parsed_grant (some grant) entry = pure grant

module _ (services : Services) where
  abbrev pub grant_text : Node → Compile String
  grant_text entry =
      if str_eq (value entry) inherit_filesystem
      then pure inherit_filesystem
      else parsed_grant (services.parse_grant (value entry)) entry

  -- One entry: a string literal that is inherited or parses.
  unfoldable pub compile_grant : Node → Compile String
  unfolding ◌>>◌
  compile_grant entry = do
    report_if (not (is_string (type entry))) grant_not_string entry
    grant_text entry

  -- The entries, joined by newlines; `first` holds before the first.
  unfoldable pub compile_grant_entries : Bool → List Node → Compile String
  unfolding compile_grant
  compile_grant_entries first [] = pure ""
  compile_grant_entries first (entry ∷ entries) = do
    grant ← compile_grant entry
    others ← compile_grant_entries false entries
    pure (str_append (if first then "" else "\n") (str_append grant others))

  unfoldable pub compile_spawn_grants : Node → Compile String
  unfolding compile_grant_entries
  compile_spawn_grants n = do
    report_if (not (is_form "grants" n)) grants_expected n
    entries ← rest n 1
    compile_grant_entries true entries
