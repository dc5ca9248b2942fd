-- ===== src/Tests/Images.antt =====
-- Runs of lib/docker/image/image_name.go.
use makisu.Base.{◌≡◌, refl, codes, bytes_eq}
use makisu.Image.{
  Name, parse_name, parse_name_for_pull, short_name, is_hostname, docker_hub_registry,
}
use makisu.Image.Spelled.{Reference, prefixed, spell, parse_name-spell}

abbrev name : Name
name = record {
  registry = codes "localhost:5000";
  repository = codes "a/b";
  tag = codes "sha256:0f";
}

spell-name :
    spell (prefixed name.registry name.repository) (Reference.digest (codes "sha256") (codes "0f"))
    ≡ codes "localhost:5000/a/b@sha256:0f"
spell-name = refl

parse_name-spell_example : parse_name (codes "localhost:5000/a/b@sha256:0f") ≡ name
unfolding is_hostname
parse_name-spell_example =
    parse_name-spell name.registry name.repository (Reference.digest (codes "sha256") (codes "0f"))
      (refl, refl) refl

short_name-name : short_name name ≡ codes "a/b@sha256:0f"
unfolding short_name
short_name-name = refl

-- An image of the hub.
parse_name_for_pull-plain : parse_name_for_pull (codes "alpine") ≡ record {
  registry = docker_hub_registry;
  repository = codes "library/alpine";
  tag = codes "latest";
}
unfolding parse_name_for_pull bytes_eq
parse_name_for_pull-plain = refl
