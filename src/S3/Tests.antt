-- ===== src/S3/Tests.antt =====
-- The theorems on the URLs of S3 at concrete URLs.
use xrdcl_pelican.Prelude.{◌≡◌, refl, false, [], ◌∷◌, ◌++◌}
use xrdcl_pelican.Prelude.Bytes.{codes, find, find_from, find_text}
use xrdcl_pelican.S3.{
  Settings, generate_http_url, http_url, clean_object_name, query_loop, extract_hostname,
  rfind_text, amazon_url_encode,
}
use xrdcl_pelican.S3.Cleaned.{more, query_of, without_authz, clean_object_name-query_of}

clean_object_name-query_of_example :
    clean_object_name
      (codes "a/b" ++ (b'?' ∷ (codes "authz=t" ++ more (codes "x=1" ∷ [] ∷ codes "y" ∷ []))))
    ≡ codes "a/b" ++ query_of (without_authz (codes "authz=t" ∷ codes "x=1" ∷ [] ∷ codes "y" ∷ []))
unfolding find
clean_object_name-query_of_example =
    clean_object_name-query_of (codes "a/b") (codes "authz=t") (codes "x=1" ∷ [] ∷ codes "y" ∷ [])
      refl refl (refl, (refl, (refl, tt)))

cleaned : clean_object_name (codes "a/b?authz=t&x=1&&y") ≡ codes "a/b?x=1&y"
unfolding clean_object_name query_loop find
cleaned = refl

abbrev settings : Settings
settings = record { endpoint = codes "s3.org"; region = codes "east"; url_style = codes "path" }

path_style :
    generate_http_url settings false (codes "s3://b.east.s3.org/k?authz=t")
    ≡ http_url (codes "https://east.s3.org/b/k") (codes "k")
unfolding generate_http_url clean_object_name query_loop find find_from find_text extract_hostname
    rfind_text
path_style = refl

-- Without an endpoint in the settings and a path in the URL, the search for the bucket starts over at
-- the front of the URL.
no_path :
    generate_http_url
      (record { endpoint = []; region = []; url_style = codes "path" })
      false
      (codes "s3://host")
    ≡ http_url (codes "https://host/s3://host") (codes "/host")
unfolding generate_http_url clean_object_name query_loop find find_from find_text extract_hostname
    rfind_text
no_path = refl

encoded : amazon_url_encode (codes "a b/c") ≡ codes "a%20b%2Fc"
unfolding amazon_url_encode
encoded = refl
