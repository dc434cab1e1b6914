-- ===== src/Director/Tests.antt =====
-- The director cache at concrete paths.
use xrdcl_pelican.Prelude.{◌++◌, refl, arith, ◌≡◌, none, some}
use xrdcl_pelican.Prelude.Bytes.{codes, find_text, find_from, find}
use xrdcl_pelican.Director.Paths.{compute_path_and_url, depth_loop, last_if}
use xrdcl_pelican.Director
use xrdcl_pelican.Director.RoundTrip.{slashes_at_end, get-put_path}

get-put_path_example :
    Director.get 6
      (codes "/a/b/")
      7
      (Director.put 6 (codes "/a/b/") (codes "https://cache/a") 5 (Director.new_entry 0))
    ≡ codes "https://cache/a" ++ slashes_at_end (codes "/a/b/")
get-put_path_example =
    get-put_path 6 (codes "/a/b/") (codes "https://cache/a") 5 7 (Director.new_entry 0)
      (omega arith) refl (omega arith)

-- The examples of the comment in the source.
at_depth_two :
    compute_path_and_url (codes "https://example.com/foo/bar") 2
    ≡ some (codes "/", codes "https://example.com/")
unfolding compute_path_and_url depth_loop last_if find_text find_from find
at_depth_two = refl

at_depth_one :
    compute_path_and_url (codes "https://example.com/foo/bar") 1
    ≡ some (codes "/foo", codes "https://example.com/foo")
unfolding compute_path_and_url depth_loop last_if find_text find_from find
at_depth_one = refl

too_deep : compute_path_and_url (codes "https://example.com/foo/bar") 3 ≡ none
unfolding compute_path_and_url depth_loop last_if find_text find_from find
too_deep = refl

-- At depth 0 the URL takes the "?" of a query along.
with_query :
    compute_path_and_url (codes "https://example.com/foo?x") 0
    ≡ some (codes "/foo", codes "https://example.com/foo?")
unfolding compute_path_and_url depth_loop last_if find_text find_from find
with_query = refl
