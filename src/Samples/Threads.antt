-- ===== src/Samples/Threads.antt =====
-- An interleaving of two goroutines over the listed workloads of a concrete cluster.
use kubernetes_images_sync_o.Base.{◌+◌, ◌≤◌, ◌≡◌, refl, false, none, List, [], ◌∷◌, ◌⊎◌, arith}
use kubernetes_images_sync_o.Text.{Text, codes, split, split_first, text_eq}
use kubernetes_images_sync_o.Errors.{ok}
use kubernetes_images_sync_o.Containers.{Container}
use kubernetes_images_sync_o.Cluster.{Workload}
use kubernetes_images_sync_o.Reference.{
  ContainerCache, get, parse_reference, parse_parts, complete, image_and_tag,
}
use kubernetes_images_sync_o.Reference.Cache.{IsSound}
use kubernetes_images_sync_o.Workers.Threads.{
  max_goroutines, Pool, initial, Reach, start, later, turn, here, there, acquire, miss, store,
  finish, append, release, done, closed, AllEnded,
}
use kubernetes_images_sync_o.Workers.Threads.Semaphore.{working, at_most_ten}
use kubernetes_images_sync_o.Workers.Threads.Refinement.{
  InOrder, list_and_process_resources-refines,
}
use kubernetes_images_sync_o.Workers.Threads.Liveness.{CanTurn, Turns, work, goroutines_end}

abbrev with_images : List Text → Workload
with_images images = record {
  namespace = codes "default";
  containers = images;
  init_containers = [];
  ephemeral_containers = [];
}

abbrev listed : List Workload
listed = with_images (codes "nginx" ∷ []) ∷ with_images [] ∷ []

abbrev no_cache : ContainerCache
no_cache name = none

no_cache-IsSound : IsSound no_cache
unfolding get
no_cache-IsSound = record { entry = λ k c h. cc }

abbrev nginx : Container
nginx = record {
  image = codes "nginx";
  tag = codes "latest";
  sha = [];
  full_name = codes "nginx";
  image_namespace = [];
}

nginx_parsed : parse_reference (codes "nginx") ≡ ok nginx
unfolding parse_reference parse_parts complete image_and_tag split split_first text_eq
nginx_parsed = refl

abbrev at_first : Pool
at_first = initial listed [] no_cache false

-- Both goroutines run, and the second one ends first.
halfway : (s : Pool) × Reach at_first s
unfolding get
halfway = (
  _,
  later
      (later
        (later
          (later (later start (turn (here (acquire (omega arith)))))
            (turn (there (here (acquire (omega arith))))))
          (turn (here (miss refl refl))))
        (turn (there (here finish))))
      (turn (there (here append))),
)

over : (s : Pool) × Reach at_first s
unfolding get halfway
over = (
  _,
  later
      (later
        (later
          (later
            (later (later (later halfway.1 (turn (here (store nginx_parsed)))) (turn (here finish)))
              (turn (here append)))
            (turn (here release)))
          (turn (here done)))
        (turn (there (here release))))
      (turn (there (here done))),
)

halfway_work : work halfway.0.goroutines ≡ 7
unfolding work halfway
halfway_work = refl

at_most_ten_example :
    (halfway.0.shared.tokens ≡ working halfway.0.goroutines)
    × (working halfway.0.goroutines ≤ max_goroutines)
at_most_ten_example = at_most_ten listed [] no_cache false halfway.1

goroutines_end_example :
    (0 + work halfway.0.goroutines ≤ work halfway.0.goroutines)
    × (AllEnded halfway.0.goroutines ⊎ CanTurn halfway.0.shared halfway.0.goroutines)
goroutines_end_example = goroutines_end listed [] no_cache false halfway.1 Turns.no_turn

list_and_process_resources-refines_example :
    InOrder listed [] no_cache (ok over.0.shared.list) × IsSound over.0.shared.cache
unfolding over halfway
list_and_process_resources-refines_example =
    list_and_process_resources-refines listed [] no_cache false no_cache-IsSound over.1
      (closed refl (refl, (refl, tt)))
