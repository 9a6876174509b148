-- ===== src/Throughput/Tail/Defs.antt =====
-- `file_tail_contains` of iyengar_nanolog_backend_total_time.cpp, on the bytes of the file.
use Prim.Native.Nat.{min}
use logger_benchmarks.Prelude.{
  ℕ, zero, suc, ◌-◌, Bool, true, false, ◌&&◌, ◌||◌, ◌==◌, if◌then◌else◌, Option, none, some, [],
  ◌∷◌, Bytes, codes, length,
}

unfoldable pub end_marker : Bytes
end_marker = codes "IYENGAR_BACKEND_BENCHMARK_END"

-- the rest behind the first `n` bytes: `seekg`, and `read` to the end
abbrev pub drop : ℕ → Bytes → Bytes
drop zero s = s
drop (suc n) [] = []
drop (suc n) (c ∷ s) = drop n s

unfoldable pub begins_with : Bytes → Bytes → Bool
begins_with s [] = true
begins_with [] (m ∷ ms) = false
begins_with (c ∷ s) (m ∷ ms) = c == m && begins_with s ms

-- `tail.find(marker) != std::string::npos`
unfoldable pub holds_text : Bytes → Bytes → Bool
unfolding begins_with
holds_text [] marker = begins_with [] marker
holds_text (c ∷ s) marker = begins_with (c ∷ s) marker || holds_text s marker

abbrev pub max_tail_size : ℕ
max_tail_size = 4096

-- `none` is a file that cannot be opened.
unfoldable pub file_tail_contains : Option Bytes → Bytes → Bool
unfolding holds_text
file_tail_contains none marker = false
file_tail_contains (some content) marker =
    let file_size = length content in
    let tail_size = min file_size max_tail_size in
    if file_size == 0 then false else holds_text (drop (file_size - tail_size) content) marker
