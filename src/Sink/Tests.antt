-- ===== src/Sink/Tests.antt =====
-- Two calls of an engine, and a file of five bytes.
use sipi.Common.{
  take, ℕ, List, [], ◌∷◌, true, none, some, Text, codes, ◌≡◌, ◌≢◌, refl, arith, drop, ◌=t=◌,
  if◌then◌else◌, All, pos, negsuc,
}
use sipi.Http.Sample.{sample_http}
use sipi.Sink.{
  Files, World, Outcome, Round, got, interrupted, failed, Engine, returns, set_status, add_header,
  write, send_file, cancelled, stream_head, serve_streaming, stream_file_region, apply_headers,
  map_status,
}
use sipi.Sink.Headers.{last_value, or_else, get-apply_headers}
use sipi.Sink.Region.{concat, Streams, stream_file_region-Streams, stream_file_region-done}
use sipi.Sink.Single.{commitment, serve_streaming-commitment}

abbrev files : Files
files = record {
  opened = λ p. if p =t= codes "/a" then some (codes "hello") else none;
  seek = λ p n. true;
}

abbrev world : World
world = record { rounds = got 1 ∷ interrupted ∷ got 0 ∷ got 9 ∷ []; patience = 5 }

-- A status after the body has begun comes too late.
abbrev late : Engine
late = set_status (pos 206) (
    add_header (codes "A") (codes "b") (
      write (some (codes "x"))
        (λ r. set_status (pos 500) (send_file (codes "/a") 1 3 (λ r. returns (pos 0))))))

late_test :
    (serve_streaming sample_http files world late).outcomes
    ≡ stream_head 206 ((codes "A", codes "b") ∷ []) ∷ []
unfolding serve_streaming
late_test = refl

map_status_test : map_status sample_http (negsuc 3) ≡ 500
unfolding map_status
map_status_test = refl

serve_streaming-commitment_example :
    (serve_streaming sample_http files world late).outcomes
    ≡ commitment sample_http late 5 0 [] ∷ []
serve_streaming-commitment_example = serve_streaming-commitment sample_http files world late

abbrev twice : List (Text × Text)
twice = (codes "A", codes "b") ∷ (codes "a", codes "c") ∷ ([], codes "d") ∷ []

twice_test : last_value sample_http (codes "a") twice ≡ some (codes "c")
unfolding sipi.Sink.Headers.value_for
twice_test = refl

abbrev part : Text → ℕ → ℕ → List Text
unfolding stream_file_region
part path offset len = (stream_file_region files world path offset len).chunks

part_test : part (codes "/a") 1 3 ≡ codes "el" ∷ codes "l" ∷ []
unfolding part
part_test = refl

stream_file_region-Streams_example :
    Streams (drop 1 (codes "hello")) 3 (stream_file_region files world (codes "/a") 1 3)
stream_file_region-Streams_example =
    stream_file_region-Streams files world (codes "/a") 1 3 (codes "hello") refl

no_failures : All (λ x. x ≢ failed) world.rounds
no_failures = ((λ e. cc), ((λ e. cc), ((λ e. cc), ((λ e. cc), tt))))

stream_file_region-done_example :
    ((stream_file_region files world (codes "/a") 1 3).code ≡ 0)
    × (concat (stream_file_region files world (codes "/a") 1 3).chunks
        ≡ take 3 (drop 1 (codes "hello")))
stream_file_region-done_example =
    stream_file_region-done files world (codes "/a") 1 3 (codes "hello") refl refl (omega arith)
      no_failures (omega arith) (omega arith)
