-- ===== src/Artifacts/Analyzer.antt =====
-- `ArtifactAnalyzer` of src/ipfs_verifier.cpp. Readings of the clock are arguments.
pub mod Sampling
use Prim.Native.Char.{code}
use mathlib.Core.List.{map}
use membra_l3_cpp.Base.{
  ℕ, ◌+◌, String, str_eq, Bool, true, false, ◌&&◌, ◌||◌, Option, none, some, List, [], ◌∷◌, leb,
  ◌==◌, length, get_elem?, if◌then◌else◌,
}
use membra_l3_cpp.Base.Bytes.{bytes_of, take}
use membra_l3_cpp.Merkle.{Bytes, bytes_eq}
use membra_l3_cpp.Artifacts.{ArtifactAnalysis, Outcome, returned, thrown, ◌>>=◌, Files, read_file}

abbrev pub audio_extensions : List String
audio_extensions = ".mp3" ∷ ".wav" ∷ ".ogg" ∷ ".m4a" ∷ ".flac" ∷ []

abbrev pub video_extensions : List String
video_extensions = ".mp4" ∷ ".avi" ∷ ".mov" ∷ ".mkv" ∷ ".webm" ∷ []

-- `::tolower` of a byte.
abbrev pub tolower : ℕ → ℕ
tolower b = if leb 65 b && leb b 90 then b + 32 else b

-- The rest of a text from its last dot on.
unfoldable pub from_last_dot : String → Option String
from_last_dot String.[] = none
from_last_dot (String.◌∷◌ c s) = elim (from_last_dot s) [
  | some extension ↦ some extension
  | none ↦ if code c == 46 then some (String.◌∷◌ c s) else none
]

unfoldable pub get_file_extension : String → String
get_file_extension filename = elim (from_last_dot filename) [
  | none ↦ ""
  | some extension ↦ extension
]

-- `std::find` of an extension.
abbrev pub has_extension : List String → Bytes → Bool
has_extension [] extension = false
has_extension (e ∷ es) extension = bytes_eq (bytes_of e) extension || has_extension es extension

-- The type that an extension, in lower case, stands for.
unfoldable pub type_of_extension : String → String
type_of_extension extension =
    let lowered = map tolower (bytes_of extension) in
    if has_extension audio_extensions lowered
    then "audio"
    else if has_extension video_extensions lowered
    then "video"
    else "unknown"

unfoldable pub detect_artifact_type : String → String
detect_artifact_type file_path = type_of_extension (get_file_extension file_path)

-- `content[i] == b`; `none` is a read past the end.
abbrev pub byte_is : Bytes → ℕ → ℕ → Option Bool
byte_is content i b = elim (get_elem? content i) [ none ↦ none | some x ↦ some (x == b) ]

-- `&&`, which reads on only while the tests hold.
abbrev pub and_then : Option Bool → Option Bool → Option Bool
and_then none later = none
and_then (some false) later = some false
and_then (some true) later = later

-- The tests of the first bytes, of which there are at least four.
unfoldable pub detect_magic : Bytes → Option String
detect_magic content =
    let mp3 =
      and_then (byte_is content 0 73) (and_then (byte_is content 1 68) (byte_is content 2 51)) in
    let wav =
      and_then (byte_is content 0 82) (
        and_then (byte_is content 1 73) (and_then (byte_is content 2 70) (byte_is content 3 70))) in
    let mp4 = and_then (byte_is content 4 102) (
      and_then (byte_is content 5 116)
        (and_then (byte_is content 6 121) (byte_is content 7 112))) in
    elim mp3 [
      | none ↦ none
      | some true ↦ some "audio"
      | some false ↦ elim wav [
        | none ↦ none
        | some true ↦ some "audio"
        | some false ↦ elim mp4 [
          | none ↦ none
          | some true ↦ some "video"
          | some false ↦ some "unknown"
        ]
      ]
    ]

-- The type from the name or the content; `none` is a read past the end of the content.
unfoldable pub detect_content_type : String → Bytes → Option String
detect_content_type filename content =
    let kind = detect_artifact_type filename in
    if str_eq kind "unknown"
    then if leb 4 (length content) then detect_magic content else some "unknown"
    else some kind

-- `format.erase(0, 1)`.
abbrev pub drop_first : String → String
drop_first String.[] = ""
drop_first (String.◌∷◌ c s) = s

module _ (sha256 : Bytes → Bytes) where
  -- `analyze_audio` and `analyze_video` of a content; `now` is read for the time stamp.
  unfoldable pub analyze : String → Bytes → String → ℕ → ArtifactAnalysis
  analyze kind content format now = record {
    artifact_type = kind;
    size_bytes = length content;
    content_hash = sha256 content;
    format = format;
    timestamp = now;
  }

  -- `analyze_audio` and `analyze_video` of a file.
  unfoldable pub analyze_file : Files → String → String → ℕ → Outcome ArtifactAnalysis
  analyze_file files kind path now = read_file files path >>= λ content.
      returned (analyze kind content (drop_first (get_file_extension path)) now)

  unfoldable pub generate_perceptual_hash : Bytes → Bytes
  generate_perceptual_hash content = take 16 (sha256 (take 4096 content))

  unfoldable pub perceptual_hash_of_file : Files → String → Outcome Bytes
  perceptual_hash_of_file files path =
      read_file files path >>= λ content. returned (generate_perceptual_hash content)
