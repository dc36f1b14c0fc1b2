-- ===== src/Tests/Downloader.antt =====
-- Runs of the downloader.
use k4all_operator.Base.{◌≡◌, refl, [], ◌∷◌, arith, List}
use k4all_operator.Base.Effect.{ok, panic, handle, ◌>>=◌, wrapping}
use k4all_operator.Downloader.Apply.{
  out_of_fuel, create_or_update_resource, apply_document, apply_documents, apply_yaml_from_url,
}
use k4all_operator.Downloader.Apply.Stream.{apply_all, apply_documents-apply_all}
use k4all_operator.Downloader.Apply.Applied.{Applied, apply_yaml_from_url-Applied}
use k4all_operator.Downloader.Delete.{delete_documents}
use k4all_operator.Downloader.Delete.Requests.{requests, deletions, delete_documents-deletions}
use k4all_operator.Downloader.Delete.Stuck.{delete_documents-out_of_fuel}
use k4all_operator.Tests.Memory.{Doc, Page, memory, answer}
use k4all_operator.Tests.Memory.Laws.{is_calm}
use k4all_operator.Tests.Samples.{kubevirt, manager, page, page_url, start}
use k4all_operator.World.{Env, Decoded, document, malformed, perform}

apply_documents-apply_all_example :
    apply_documents memory 3 page 0 ≡ apply_all memory (kubevirt ∷ manager ∷ [])
apply_documents-apply_all_example =
    apply_documents-apply_all memory page (kubevirt ∷ manager ∷ []) 0 3 (refl, (refl, refl))
      (omega arith)

apply_yaml_from_url-Applied_example :
    Applied memory manager (apply_yaml_from_url memory 3 page_url start).1.trace
unfolding perform answer apply_yaml_from_url apply_documents apply_document
    create_or_update_resource handle ◌>>=◌ wrapping
apply_yaml_from_url-Applied_example =
    apply_yaml_from_url-Applied memory page_url start 3 200 page (kubevirt ∷ []) manager [] refl
      (refl, (refl, refl)) (omega arith) refl refl

abbrev stream : List (Decoded Doc)
stream = document kubevirt ∷ malformed "tab" ∷ document manager ∷ []

abbrev broken_page : Page
broken_page = record { text = ""; docs = stream }

delete_documents-deletions_example :
    ((delete_documents memory 4 broken_page 0 start).0 ≡ ok tt)
    × (requests memory (delete_documents memory 4 broken_page 0 start).1.trace
        ≡ deletions memory stream (requests memory start.trace))
delete_documents-deletions_example =
    delete_documents-deletions memory is_calm broken_page stream 0 4 (refl, (refl, (refl, refl)))
      (omega arith) start

-- a decoder that always fails
abbrev failing_memory : Env
failing_memory = record memory { decode_yaml = λ p n. malformed "cut off" }

delete_documents-out_of_fuel_example :
    delete_documents failing_memory 9 page 0 start ≡ (panic out_of_fuel, start)
delete_documents-out_of_fuel_example =
    delete_documents-out_of_fuel failing_memory page 0 (λ k. "cut off") (λ k. refl) 9 start
