-- ===== src/Put/Tests.antt =====
-- Tests of src/XrdClCurl/XrdClCurlOpPut.cc and the witnesses.
use xrdcl_pelican.Prelude.{List, true, false, [], ◌∷◌, ◌++◌, ◌≡◌, refl}
use xrdcl_pelican.Prelude.Bytes.{Bytes, codes}
use xrdcl_pelican.Put.{
  pause, PutOp, pauses, ends, sends, new_put, read_callback, continue, continue_handle,
}
use xrdcl_pelican.Put.Upload.{
  Uploads, begins, moves, waits, continues, resumes, Ended, Uploads-read_callback,
}

-- "abc" goes out in two reads, the operation pauses, and then "d" and the end follow.
abbrev begun : PutOp
begun = new_put true false (codes "abc")

abbrev first : PutOp
first = (read_callback begun 2).0

abbrev second : PutOp
second = (read_callback first 2).0

abbrev paused : PutOp
paused = (read_callback second 2).0

abbrev given : PutOp
given = (continue true paused true (codes "d")).0

abbrev resumed : PutOp
resumed = (continue_handle true given).0

abbrev last : PutOp
last = (read_callback resumed 2).0

abbrev closed : PutOp
closed = (continue true last true []).0

first_test : read_callback begun 2 ≡ (first, sends (codes "ab"))
unfolding read_callback
first_test = refl

second_test : read_callback first 2 ≡ (second, sends (codes "c"))
unfolding read_callback
second_test = refl

paused_test : read_callback second 2 ≡ (paused, pauses)
unfolding read_callback pause
paused_test = refl

answers_test : paused.answers ≡ true ∷ []
unfolding read_callback pause
answers_test = refl

given_test : continue true paused true (codes "d") ≡ (given, true)
unfolding continue
given_test = refl

last_test : read_callback resumed 2 ≡ (last, sends (codes "d"))
unfolding read_callback continue continue_handle pause
last_test = refl

closed_test : read_callback closed 2 ≡ (closed, ends)
unfolding read_callback continue continue_handle pause
closed_test = refl

closed_given : continue true last true [] ≡ (closed, true)
unfolding continue
closed_given = refl

paused_empty : paused.payload ≡ []
unfolding read_callback pause
paused_empty = refl

last_empty : last.payload ≡ []
unfolding read_callback continue continue_handle pause
last_empty = refl

abbrev pieces : List Bytes
pieces = codes "d" ∷ []

upload : Uploads closed ([] ∷ pieces) (codes "abcd") (codes "abcd")
upload =
    continues last closed (codes "abcd") (codes "abcd") [] pieces true
      (moves resumed last (codes "abcd") (codes "abc") (codes "d") pieces 2
        (resumes given (codes "abcd") (codes "abc") pieces true (
          continues paused given (codes "abc") (codes "abc") (codes "d") [] true
            (waits second paused (codes "abc") (codes "abc") [] 2
              (moves first second (codes "abc") (codes "ab") (codes "c") [] 2
                (moves begun first (codes "abc") [] (codes "ab") [] 2
                  (begins true false (codes "abc")) first_test)
                second_test)
              paused_test)
            paused_empty given_test))
        last_test)
      last_empty closed_given

Uploads-read_callback_example :
    (codes "abcd" ++ closed.payload ≡ codes "abcd")
    × Ended ([] ∷ pieces) (codes "abcd") (codes "abcd") ends
Uploads-read_callback_example =
    Uploads-read_callback closed closed ([] ∷ pieces) (codes "abcd") (codes "abcd") 2 ends upload
      closed_test
