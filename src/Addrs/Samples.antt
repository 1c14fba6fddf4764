-- ===== src/Addrs/Samples.antt =====
-- Tests of the addresses, and the theorems about them at concrete addresses.
use go_slug.Prelude.{
  false, ℕ, ◌≡◌, ◌⊎◌, refl, true, none, some, [], ◌++◌, Text, codes, onto, ok, ℕ_discrete,
}
use go_slug.Go.Path.{dot, dot_dot, segments, clean, join_path}
use go_slug.Go.Walk.{walk}
use go_slug.Addrs.Local.{looks_like_local_source, parse_local_source, with_slash, with_prefix}
use go_slug.Addrs.SubPath.{normalize_sub_path, valid_sub_path, join_sub_path, split_sub_path}
use go_slug.Addrs.SubPath.Join.{directories, outcome, join_sub_path-walk}
use go_slug.Addrs.SubPath.Valid.{normalize_sub_path-ok}
use go_slug.Addrs.Types.{Url, Packages, RemotePackage, RemoteSource, RegistrySource, Source}
use go_slug.Addrs.Remote.{git, https, expand, parse_remote_source}
use go_slug.Addrs.Registry.{final_source_addr, final_parts}
use go_slug.Addrs.Source.{resolve_relative_source}
use go_slug.Addrs.Resolve.{
  IsWellFormed, ResolvesTo, Unclean, resolve_relative_source-IsWellFormed, join_local-not_canonical,
  parse_local_source-ok, final_source_addr-directories,
}
use go_slug.Addrs.Secure.{IsSecure, parse_remote_source-IsSecure}

-- The examples in the comment of splitSubPath.
split_plain : split_sub_path (codes "dom.com/path/?q=p") ≡ (codes "dom.com/path/?q=p", [])
unfolding split_sub_path
split_plain = refl

split_starred :
    split_sub_path (codes "proto://dom.com/path//*?q=p")
    ≡ (codes "proto://dom.com/path?q=p", codes "*")
unfolding split_sub_path
split_starred = refl

split_deeper :
    split_sub_path (codes "proto://dom.com/path//path2?q=p")
    ≡ (codes "proto://dom.com/path?q=p", codes "path2")
unfolding split_sub_path
split_deeper = refl

clean_dots : clean (codes "./a//../../b/./c/") ≡ codes "../b/c"
unfolding clean
clean_dots = refl

expand_github :
    expand (codes "github.com/hashicorp/go-slug/bleep")
    ≡ ok (codes "git::https://github.com/hashicorp/go-slug.git//bleep")
unfolding expand
expand_github = refl

final_parts_version :
    final_parts (codes "terraform.io/a/b/c@1.2.3//sub")
    ≡ (codes "terraform.io/a/b/c//sub", codes "1.2.3")
unfolding final_parts
final_parts_version = refl

join_sub_path-walk_example :
    join_sub_path (codes "beep/boop") (codes "../bloop")
    ≡ outcome (walk (segments (codes "../bloop")) (onto (directories (codes "beep/boop")) []))
unfolding valid_sub_path looks_like_local_source
join_sub_path-walk_example = join_sub_path-walk (codes "beep/boop") (codes "../bloop") refl refl

join_sub_path_bloop : join_sub_path (codes "beep/boop") (codes "../bloop") ≡ ok (codes "beep/bloop")
unfolding join_sub_path
join_sub_path_bloop = refl

normalize_sub_path-ok_example : (codes "a/b" ≡ codes "a/b") × (valid_sub_path (codes "a/b") ≡ true)
unfolding normalize_sub_path
normalize_sub_path-ok_example = normalize_sub_path-ok (codes "a/b") {s = codes "a/b"} refl

abbrev example_url : Url
example_url = record {
  scheme = https;
  opaque = [];
  user = none;
  host = codes "example.com";
  path = codes "/foo.git";
  raw_path = [];
  force_query = false;
  raw_query = [];
  fragment = [];
  raw_fragment = [];
}

abbrev example_package : RemotePackage
example_package = record { source_type = git; url = example_url }

abbrev remote_at : Text → Source ℕ
remote_at sub_path = Source.remote_source (record { pkg = example_package; sub_path = sub_path })

abbrev local_at : Text → Source ℕ
local_at rel_path = Source.local_source (record { rel_path = rel_path })

resolve_relative_source-IsWellFormed_example :
    IsWellFormed (local_at (codes "./c"))
    × ResolvesTo (local_at (codes "./a/b")) (local_at (codes "../../c")) (local_at (codes "./c"))
unfolding clean with_slash with_prefix resolve_relative_source
resolve_relative_source-IsWellFormed_example =
    resolve_relative_source-IsWellFormed (local_at (codes "./a/b")) (local_at (codes "../../c"))
      {c = local_at (codes "./c")} refl refl refl refl

join_local-not_canonical_example :
    Unclean
      (record { rel_path = codes "./a" })
      (record { rel_path = codes "../" })
      dot
      (codes "./.")
      (codes "./")
    ⊎ Unclean
        (record { rel_path = codes "./a" })
        (record { rel_path = codes "../" })
        dot_dot
        (codes "./..")
        (codes "../")
unfolding join_path
join_local-not_canonical_example =
    join_local-not_canonical (record { rel_path = codes "./a" }) (record { rel_path = codes "../" })
      refl

parse_local_source-ok_example :
    (codes "./a/b" ≡ codes "./a/b") × (looks_like_local_source (codes "./a/b") ≡ true)
unfolding parse_local_source
parse_local_source-ok_example =
    parse_local_source-ok (codes "./a/b") {s = record { rel_path = codes "./a/b" }} refl

abbrev registry_at : Text → RegistrySource ℕ
registry_at sub_path = record { pkg = 7; sub_path = sub_path }

abbrev real_at : Text → RemoteSource
real_at sub_path = record { pkg = example_package; sub_path = sub_path }

final_source_addr-directories_example :
    ((final_source_addr (registry_at (codes "b/c")) (real_at (codes "a"))).pkg ≡ example_package)
    × (valid_sub_path (final_source_addr (registry_at (codes "b/c")) (real_at (codes "a"))).sub_path
        ≡ true)
    × (directories (final_source_addr (registry_at (codes "b/c")) (real_at (codes "a"))).sub_path
        ≡ directories (codes "a") ++ directories (codes "b/c"))
unfolding valid_sub_path
final_source_addr-directories_example =
    final_source_addr-directories (registry_at (codes "b/c")) (real_at (codes "a")) refl refl

-- A stand-in for the other packages: every URL is parsed as the same https URL with its path.
abbrev one_host : Packages
one_host = record {
  parse_url = λ s. some (record example_url { path = s });
  url_string = λ u. u.path;
  escaped_path = λ u. u.path;
  query = λ _. [];
  parse_query = λ _. some [];
  encode = λ _. [];
  to_lower = λ s. s;
  ModulePackage = ℕ;
  module_package_discrete = ℕ_discrete;
  module_package_string = λ _. [];
  parse_module_source = λ _. none;
  Version = ℕ;
  version_discrete = ℕ_discrete;
  version_string = λ _. [];
  parse_version = λ _. none;
}

parse_remote_source-IsSecure_example : IsSecure (record {
  pkg = record {
    source_type = git;
    url = record example_url { path = codes "https://example.com/foo.git" };
  };
  sub_path = codes "sub";
})
unfolding parse_remote_source
parse_remote_source-IsSecure_example =
    parse_remote_source-IsSecure one_host (codes "git::https://example.com/foo.git//sub") refl
