-- ===== src/Gitea/Names.antt =====
-- `repositoryParts` of apps/worker/src/gitea/sync.ts on the names of repositories.
use code_host.Prelude.{String, false, some, eq_iff, ◌≡◌, ◌≢◌, refl, arith}
use Prim.Native.String
use code_host.Prelude.Text.{◌++◌ as append}
use code_host.Prelude.Result.{ok}
use code_host.Gitea.Exchange.{split_at_slash, is_slashed, repository_parts}

split_at_slash-append :
    (owner rest : String)
    → is_slashed owner ≡ false
    → split_at_slash (append owner (append "/" rest)) ≡ some (owner, rest)
unfolding split_at_slash is_slashed append
split_at_slash-append String.[] rest h =
    rw
      (
        String.append.nil (String.◌++◌ "/" rest),
        String.append.cons "/" "" rest,
        String.append.nil rest,
      )
      refl
split_at_slash-append (String.◌∷◌ c s) rest h =
    rw (String.append.cons c s (String.◌++◌ "/" rest))
      (ground (arith, split_at_slash-append s rest))

-- A full name of an owner and a repository, neither of them empty or with a slash, has these parts.
pub repository_parts-append :
    (owner repository : String)
    → owner ≢ ""
    → repository ≢ ""
    → is_slashed owner ≡ false
    → is_slashed repository ≡ false
    → repository_parts (append owner (append "/" repository)) ≡ ok (owner, repository)
unfolding repository_parts
repository_parts-append owner repository some_owner some_repository plain plain_too =
    rw (split_at_slash-append owner repository plain, repository_parts)
      (ground (arith, eq_iff owner "", eq_iff repository ""))
