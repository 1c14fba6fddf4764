-- ===== src/Addrs/Types.antt =====
-- The address types of sourceaddrs, and what it takes from other packages: net/url, the registry
-- address parser of terraform-registry-address, and the versions of go-versions.
use go_slug.Prelude.{Bool, Option, List, Text}
use go_slug.Addrs.Local.{LocalSource, LocalError}
use go_slug.Addrs.SubPath.{SubPathError}

-- url.URL, in whose equality every field takes part; `user` is the text of User.
pub record Url : Type 0 where
  pub scheme : Text
  pub opaque : Text
  pub user : Option Text
  pub host : Text
  pub path : Text
  pub raw_path : Text
  pub force_query : Bool
  pub raw_query : Text
  pub fragment : Text
  pub raw_fragment : Text

-- url.Values: the arguments of a query, each with its values, in some order.
abbrev pub Query : Type 0
Query = List (Text × List Text)

pub record Packages : Type 1 where
  -- url.Parse, URL.String, URL.EscapedPath, URL.Query, url.ParseQuery and Values.Encode
  pub parse_url : Text → Option Url
  pub url_string : Url → Text
  pub escaped_path : Url → Text
  pub query : Url → Query
  pub parse_query : Text → Option Query
  pub encode : Query → Text
  -- strings.ToLower
  pub to_lower : Text → Text
  -- regaddr.ModulePackage and regaddr.ParseModuleSource, which returns a package and a subdirectory
  pub ModulePackage : Type 0
  pub module_package_discrete : Discrete ModulePackage
  pub module_package_string : ModulePackage → Text
  pub parse_module_source : Text → Option (ModulePackage × Text)
  -- versions.Version, versions.ParseVersion
  pub Version : Type 0
  pub version_discrete : Discrete Version
  pub version_string : Version → Text
  pub parse_version : Text → Option Version

pub record RemotePackage : Type 0 where
  pub source_type : Text
  pub url : Url

pub record RemoteSource : Type 0 where
  pub pkg : RemotePackage
  pub sub_path : Text

pub record RegistrySource (ModulePackage : Type 0) : Type 0 where
  pub pkg : ModulePackage
  pub sub_path : Text

pub record RegistrySourceFinal (ModulePackage Version : Type 0) : Type 0 where
  pub src : RegistrySource ModulePackage
  pub version : Version

pub data Source (ModulePackage : Type 0) : Type 0 where
  local_source : LocalSource → Source ModulePackage
  registry_source : RegistrySource ModulePackage → Source ModulePackage
  remote_source : RemoteSource → Source ModulePackage

pub data FinalSource (ModulePackage Version : Type 0) : Type 0 where
  local_source : LocalSource → FinalSource ModulePackage Version
  registry_source_final :
      RegistrySourceFinal ModulePackage Version → FinalSource ModulePackage Version
  remote_source : RemoteSource → FinalSource ModulePackage Version

-- One constructor for each message, and `panicked` for a panic.
pub data AddrError : Type 0 where
  surrounding_spaces empty_address : AddrError
  invalid_local : LocalError → AddrError
  sub_path_error : SubPathError → AddrError
  short_shorthand : Text → AddrError
  invalid_url_syntax no_scheme has_user redundant_source_type invalid_query : AddrError
  unsupported_scheme unsupported_source_type : Text → AddrError
  git_scheme git_argument git_repeated_ref : AddrError
  unencrypted_http https_scheme https_repeated_archive https_archive : AddrError
  https_suffix https_checksum : AddrError
  invalid_module_source invalid_version : AddrError
  has_sub_path : AddrError
  panicked : AddrError
