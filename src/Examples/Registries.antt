-- ===== src/Examples/Registries.antt =====
-- An image of Docker Hub: the registry refuses the first request and names where a token is to be had.
use tugtainer.Base.{
  ◌≡◌, refl, true, not, Option, none, some, [], ◌∷◌, Text, codes, all, contains_text, lookup, put,
  ◌==◌,
}
use tugtainer.Registry.Spec.{parse_image_spec, is_insecure, get_basic_token}
use tugtainer.Registry.{
  Response, Reply, response, Verb, head, get, Asked, Log, ok, get_image_remote_digest, short_digest,
  urls_of, url_of,
}
use tugtainer.Registry.Token.{token_url}
use tugtainer.Registry.Exchanges.{Explained, is_proper}
use tugtainer.Registry.Explained.{get_image_remote_digest-Explained}

abbrev refusal : Response
refusal = record {
  status = 401;
  www_authenticate =
      some (codes "Bearer realm=\"https://auth.docker.io/token\",service=\"registry.docker.io\"");
  content_digest = none;
  etag = none;
  json = none;
}

abbrev token_answer : Response
token_answer = record {
  status = 200;
  www_authenticate = none;
  content_digest = none;
  etag = none;
  json = some (record { token = some (codes "t"); access_token = none });
}

abbrev manifest : Response
manifest = record {
  status = 200;
  www_authenticate = none;
  content_digest = some (codes "sha256:b");
  etag = none;
  json = none;
}

abbrev answer_to : Log → Verb → Reply
answer_to [] verb = response refusal
answer_to (x ∷ log) get = response token_answer
answer_to (x ∷ log) head = response manifest

abbrev network : Log → Asked → Reply
network log a = answer_to log a.verb

abbrev nginx : Text
nginx = codes "nginx"

abbrev local : Option Text
local = some (codes "nginx@sha256:a")

nginx_digest :
    (get_image_remote_digest network none [] nginx local).0 ≡ ok (some (codes "sha256:b"))
unfolding get_image_remote_digest contains_text token_url lookup put ◌==◌
nginx_digest = refl

nginx_url :
    url_of (codes "https") (parse_image_spec nginx)
    ≡ codes "https://registry-1.docker.io/v2/library/nginx/manifests/latest"
unfolding parse_image_spec ◌==◌
nginx_url = refl

-- A name that is pinned to a digest: the digest is taken for a tag.
pinned_spec : parse_image_spec (codes "nginx@sha256:a") ≡ record {
  registry = codes "registry-1.docker.io";
  repo = codes "library/nginx@sha256";
  tag = codes "a";
}
unfolding parse_image_spec ◌==◌
pinned_spec = refl

-- A line of the setting that is a part of the name of a registry makes it insecure.
part_insecure : is_insecure (some (codes "docker.io")) (codes "registry-1.docker.io") ≡ true
unfolding is_insecure contains_text
part_insecure = refl

-- The credentials of one registry are taken for another whose name has it as a part.
part_credentials :
    get_basic_token
      ((codes "ghcr.io", (codes "auth", codes "secret") ∷ []) ∷ [])
      (codes "notghcr.io")
    ≡ some (codes "secret")
unfolding get_basic_token lookup contains_text ◌==◌
part_credentials = refl

get_image_remote_digest-Explained_example :
    Explained
      (short_digest local)
      (parse_image_spec nginx).repo
      (get_image_remote_digest network none [] nginx local).0
      (get_image_remote_digest network none [] nginx local).1
    × (all
          (is_proper
            (not (is_insecure none (parse_image_spec nginx).registry))
            (urls_of (is_insecure none (parse_image_spec nginx).registry) (parse_image_spec nginx)))
          (get_image_remote_digest network none [] nginx local).1
        ≡ true)
get_image_remote_digest-Explained_example =
    get_image_remote_digest-Explained network none [] nginx local
