-- ===== src/Store/Key/Tests.antt =====
-- Runs of the two validators.
use locals.Base.{◌≡◌, refl, ok, err, codes}
use locals.Store.Error.{invalid_bucket_name, invalid_key}
use locals.Store.Key.{validate_bucket_name, validate_key}

good_bucket : validate_bucket_name (codes "my-bucket.2") ≡ ok tt
unfolding validate_bucket_name
good_bucket = refl

address : validate_bucket_name (codes "192.168.0.1") ≡ err invalid_bucket_name
unfolding validate_bucket_name
address = refl

not_an_address : validate_bucket_name (codes "192.168.0.256") ≡ ok tt
unfolding validate_bucket_name
not_an_address = refl

two_dots : validate_bucket_name (codes "a..b") ≡ err invalid_bucket_name
unfolding validate_bucket_name
two_dots = refl

good_key : validate_key (codes "2026/cat.jpg") ≡ ok tt
unfolding validate_key
good_key = refl

marker_key : validate_key (codes "a/b/") ≡ ok tt
unfolding validate_key
marker_key = refl

empty_segment : validate_key (codes "a//b") ≡ err invalid_key
unfolding validate_key
empty_segment = refl

root_key : validate_key (codes "/") ≡ err invalid_key
unfolding validate_key
root_key = refl

dot_segment : validate_key (codes "a/../b") ≡ err invalid_key
unfolding validate_key
dot_segment = refl
