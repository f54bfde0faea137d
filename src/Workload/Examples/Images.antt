-- ===== src/Workload/Examples/Images.antt =====
-- An image's config, for the theorem about crates/simferret/src/workload/oci.rs, `normalize_launch`.
use simferret.Prelude.{
  ◌≡◌, refl, false, List, [], ◌∷◌, Option, none, some, Text, codes, map, same_text, if◌then◌else◌,
  ok, split_on, join_with, Text-discrete, ℕ_discrete,
}
use simferret.Checker.Utf8.{from_utf8_lossy}
use simferret.Workload.Launch.{LaunchIdentity}
use simferret.Workload.Path.{
  root_path, before_last, parent_of, chain_from, ancestors, layer_parts, normalize_layer_path,
}
use simferret.Workload.Tree.{Tree, default_directory, file, get}
use simferret.Workload.Fields.{
  check_arguments, normalize_arguments, name_of, check_entries, normalize_environment, parse_digits,
  check_owners, parse_user, normalize_user,
}
use simferret.Workload.Contract.{validate_launch_path, validate_launch_identity}
use simferret.Workload.Utf8.{valid_from, from_utf8}
use simferret.Workload.Directory.{
  trim_start, trim_end, trim_slashes, relative_of, directory_text, normalize_working_directory,
}
use simferret.Workload.Image.{
  JsonOps, executable_in, required_string, optional_string_value, strings_of, string_list,
  check_section, check_platform, launch_of, normalize_launch,
}
use simferret.Workload.Image.Launched.{IsImageLaunch, normalize_launch-IsImageLaunch}

-- The values and the two objects of one config.
data Value : Type 0 where
  word : Text → Value
  words : List Text → Value
  section : Value

data Object : Type 0 where
  config launch_section : Object

abbrev word_of : Value → Option Text
word_of (word text) = some text
word_of (words texts) = none
word_of section = none

abbrev words_of : Value → Option (List Value)
words_of (word text) = none
words_of (words texts) = some (map word texts)
words_of section = none

abbrev section_of : Value → Option Object
section_of (word text) = none
section_of (words texts) = none
section_of section = some launch_section

abbrev value_at : Object → Text → Option Value
value_at config key =
    if same_text key (codes "architecture")
    then some (word (codes "amd64"))
    else if same_text key (codes "os")
    then some (word (codes "linux"))
    else if same_text key (codes "config")
    then some section
    else none
value_at launch_section key =
    if same_text key (codes "Entrypoint")
    then some (words (codes "/bin/app" ∷ []))
    else if same_text key (codes "Cmd")
    then some (words (codes "serve" ∷ []))
    else if same_text key (codes "Env")
    then some (words (codes "A=1" ∷ []))
    else if same_text key (codes "WorkingDir")
    then some (word (codes "/bin/"))
    else none

abbrev json : JsonOps Value Object
json = record {
  is_null = λ value. false;
  as_str = word_of;
  as_bool = λ value. none;
  as_array = words_of;
  as_object = section_of;
  get_key = value_at;
  has_no_key = λ object. false;
}

abbrev image_tree : Tree
image_tree =
    (root_path, default_directory)
    ∷ (codes "bin", default_directory)
    ∷ (codes "bin/app", file (1 ∷ []) 493 1 1 0)
    ∷ []

abbrev image_launch : LaunchIdentity
image_launch = record {
  executable = codes "/bin/app";
  arguments = codes "/bin/app" ∷ codes "serve" ∷ [];
  environment = codes "A=1" ∷ [];
  working_directory = codes "/bin";
  uid = 65534;
  gid = 65534;
}

image_launched : normalize_launch json config image_tree ≡ ok image_launch
unfolding normalize_launch launch_of check_platform check_section required_string
    optional_string_value string_list strings_of executable_in normalize_arguments check_arguments
    normalize_environment check_entries name_of normalize_user parse_user parse_digits check_owners
    normalize_working_directory relative_of directory_text trim_slashes trim_start trim_end get
    normalize_layer_path layer_parts split_on join_with ancestors chain_from parent_of before_last
    from_utf8 valid_from from_utf8_lossy validate_launch_identity validate_launch_path Text-discrete
    ℕ_discrete
image_launched = refl

normalize_launch-IsImageLaunch_example : IsImageLaunch image_tree image_launch
normalize_launch-IsImageLaunch_example =
    normalize_launch-IsImageLaunch json config image_tree image_launch image_launched
