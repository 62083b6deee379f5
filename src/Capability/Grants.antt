-- ===== src/Capability/Grants.antt =====
-- internal/capability/grants.go, process.go and network.go: what a set of grants allows.
use howlframe.Common.{
  String, Bool, true, false, ◌&&◌, ◌||◌, Option, none, some, List, [], ◌∷◌, ◌++◌, str_eq,
  str_append, if◌then◌else◌,
}
use Prim.Native.String.{len, slice}
use text.Mathlib.Text.{starts_with}
use howlframe.Common.Result.{Result, ok, err, ◌>>=◌}
use howlframe.Capability.{Capability, filesystem, process}

-- ParseGrant, parseFetchGrant with parseFetchSpec (a host, and a port or ""), contained, and
-- urlTarget (a host, a port, the default port of the scheme and the text of the target, or the
-- reason of a refusal).
pub record Parsers : Type 0 where
  pub parse_grant : String → Option String
  pub parse_fetch_grant : String → Option (String × String)
  pub contained : String → String → Bool
  pub url_target : String → Result String (String × String × String × String)

abbrev pub Grants : Type 0
Grants = List Capability

-- `HasCoarse`
unfoldable pub has_coarse : Capability → Grants → Bool
has_coarse c [] = false
has_coarse c (g ∷ gs) = str_eq g c || has_coarse c gs

-- `HasUnrestrictedFilesystem`
unfoldable pub has_unrestricted_filesystem : Grants → Bool
unfolding has_coarse
has_unrestricted_filesystem = has_coarse filesystem

-- A parsed grant serves a capability: it is the capability, or a scoped grant of its class.
unfoldable pub serves : Capability → String → Bool
serves c parsed =
    str_eq parsed c
    || str_eq c filesystem && starts_with parsed "filesystem:"
    || str_eq c process && starts_with parsed "process:exec="

-- `Grants.Has`
unfoldable pub has : Parsers → Capability → Grants → Bool
unfolding serves
has parsers c [] = false
has parsers c (g ∷ gs) =
    elim (parsers.parse_grant g) [ none ↦ false | some parsed ↦ serves c parsed ]
    || has parsers c gs

-- `HasFetch`
unfoldable pub has_fetch : Parsers → Grants → Bool
has_fetch parsers [] = false
has_fetch parsers (g ∷ gs) =
    elim (parsers.parse_fetch_grant g) [ none ↦ false | some target ↦ true ] || has_fetch parsers gs

-- A fetch grant covers a target: the host, and the port or the default port.
unfoldable pub covers_target : String × String → String × String × String × String → Bool
covers_target (granted_host, granted_port) (host, port, default_port, _) =
    str_eq granted_host host
    && (str_eq granted_port port || str_eq granted_port "" && str_eq port default_port)

unfoldable pub covers_fetch : Parsers → String × String × String × String → Grants → Bool
unfolding covers_target
covers_fetch parsers target [] = false
covers_fetch parsers target (g ∷ gs) =
    elim (parsers.parse_fetch_grant g) [
      | none ↦ false
      | some granted ↦ covers_target granted target
    ]
    || covers_fetch parsers target gs

-- `AuthorizeFetch`, on the text of the URL: none, or the reason of the refusal and the grant that
-- it would take.
unfoldable pub fetch_refusal : Parsers → String → Grants → Option (String × String)
unfolding covers_fetch
fetch_refusal parsers url gs = elim (parsers.url_target url) [
  | err reason ↦ some (reason, "network:fetch=<invalid-url>")
  | ok target ↦
      if covers_fetch parsers target gs
      then none
      else some
          ("network: fetch host is not in the allow-list", str_append "network:fetch=" target.3)
]

-- `strings.TrimPrefix(s, prefix)` where `s` has the prefix.
abbrev without_prefix : String → String → String
without_prefix prefix s = slice s (len prefix) (len s)

-- The root of a scoped grant contains the requested one.
unfoldable pub covers_root : Parsers → String → String → Grants → Bool
covers_root parsers prefix root [] = false
covers_root parsers prefix root (g ∷ gs) =
    starts_with g prefix && parsers.contained (without_prefix prefix g) root
    || covers_root parsers prefix root gs

-- The grant is held as it stands, once both are normalised.
unfoldable pub holds_verbatim : Parsers → String → Grants → Bool
holds_verbatim parsers c [] = false
holds_verbatim parsers c (g ∷ gs) =
    elim (parsers.parse_grant g) [ none ↦ false | some parsed ↦ str_eq parsed c ]
    || holds_verbatim parsers c gs

-- A scoped filesystem grant in `covers`.
unfoldable pub covers_scoped : Parsers → String → String → Grants → Bool
unfolding has_coarse covers_root
covers_scoped parsers prefix c gs =
    has_coarse filesystem gs || covers_root parsers prefix (without_prefix prefix c) gs

-- `covers`
unfoldable pub covers : Parsers → String → Grants → Bool
unfolding covers_scoped holds_verbatim
covers parsers c gs =
    if starts_with c "filesystem:read="
    then covers_scoped parsers "filesystem:read=" c gs
    else if starts_with c "filesystem:write="
    then covers_scoped parsers "filesystem:write=" c gs
    else holds_verbatim parsers c gs

-- The grants that "inherit:filesystem" hands on.
unfoldable pub is_filesystem_grant : String → Bool
is_filesystem_grant g =
    str_eq g filesystem || starts_with g "filesystem:read=" || starts_with g "filesystem:write="

unfoldable pub filesystem_grants : Grants → Grants
unfolding is_filesystem_grant
filesystem_grants [] = []
filesystem_grants (g ∷ gs) =
    let rest = filesystem_grants gs in if is_filesystem_grant g then g ∷ rest else rest

-- The grants that one requested text gives the child, or the reason of the refusal.
unfoldable pub child_grants : Parsers → Grants → String → Result String Grants
unfolding filesystem_grants covers
child_grants parsers parent raw =
    if str_eq raw "inherit:filesystem"
    then ok (filesystem_grants parent)
    else elim (parsers.parse_grant raw) [
      | none ↦ err "child grant is invalid"
      | some g ↦
          if covers parsers g parent
          then ok (g ∷ [])
          else err "child requested a grant the parent does not hold"
    ]

-- `Attenuate`
unfoldable pub attenuate : Parsers → Grants → List String → Result String Grants
unfolding child_grants
attenuate parsers parent [] = ok []
attenuate parsers parent (raw ∷ requested) = do
  first ← child_grants parsers parent raw
  others ← attenuate parsers parent requested
  ok (first ++ others)
