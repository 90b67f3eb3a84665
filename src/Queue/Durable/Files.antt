-- ===== src/Queue/Durable/Files.antt =====
-- core/internal/queue: a sound name, when one file is put or deleted.
use agentbell.Common.{
  ℕ, true, false, ◌&&◌, [], ◌∷◌, ◌++◌, Str, codes, has_suffix, str_eq, str_eq_iff, some, ◌≡◌, refl,
  ap, inl, inr, if◌then◌else◌, arith, length, length-append, ◌<◌, Bool-cases, subst,
}
use agentbell.Queue.Disk.{File, Directory, Disk, file_at, put_file, delete_file}
use agentbell.Queue.Durable.{
  same_directory, file_at-put, file_at-delete, healthy_file, Elsewhere, IsSound,
}

longer_ne : (s t : Str) → length t < length s → str_eq s t ≡ false
longer_ne s t h = elim (Bool-cases (str_eq s t)) [
  | inl e ↦ absurd (omega (arith, ap {B = ℕ} length ((str_eq_iff s t).0 e)))
  | inr e ↦ e
]

-- A quarantined file's name is passed over by the listing.
pub corrupt_not_json : (n : Str) → has_suffix (n ++ codes ".corrupt") (codes ".json") ≡ false
unfolding has_suffix
corrupt_not_json [] = refl
corrupt_not_json (x ∷ n) = ground (
  arith,
  corrupt_not_json n,
  longer_ne (n ++ codes ".corrupt") (codes "json")
      (omega (arith, length-append n (codes ".corrupt"))),
)

module _ (name : Str) where
  pub put-IsSound :
      (d : Directory) (n : Str) (f : File) (k : Disk)
      → healthy_file f ≡ true
      → IsSound name k
      → IsSound name (put_file d n f k)
  put-IsSound d n f k h s = record {
    place = s.place;
    file = if same_directory d s.place && str_eq n name then f else s.file;
    somewhere = ground (arith, file_at-put d s.place n name f k, s.somewhere);
    everywhere = λ d' f' g. ground (arith, file_at-put d d' n name f k, s.everywhere d' f');
  }

  pub put_other-IsSound :
      (d : Directory) (n : Str) (f : File) (k : Disk)
      → str_eq n name ≡ false
      → IsSound name k
      → IsSound name (put_file d n f k)
  put_other-IsSound d n f k h s = record {
    place = s.place;
    file = s.file;
    somewhere = ground (arith, file_at-put d s.place n name f k, s.somewhere);
    everywhere = λ d' f' g. ground (arith, file_at-put d d' n name f k, s.everywhere d' f');
  }

  pub delete_other-IsSound :
      (d : Directory) (n : Str) (k : Disk)
      → str_eq n name ≡ false
      → IsSound name k
      → IsSound name (delete_file d n k)
  delete_other-IsSound d n k h s = record {
    place = s.place;
    file = s.file;
    somewhere = ground (arith, file_at-delete d s.place n name k, s.somewhere);
    everywhere = λ d' f' g. ground (arith, file_at-delete d d' n name k, s.everywhere d' f');
  }

  pub delete-Elsewhere-IsSound :
      (d : Directory) (n : Str) (k : Disk)
      → Elsewhere d n k
      → IsSound name k
      → IsSound name (delete_file d n k)
  delete-Elsewhere-IsSound d n k (d', f', ne, at) s = elim (Bool-cases (str_eq n name)) [
    | inl same ↦
        let e : n ≡ name = (str_eq_iff n name).0 same in
        record {
          place = d';
          file = f';
          somewhere =
              ground
                (arith, file_at-delete d d' n name k, subst (λ x. file_at k d' x ≡ some f') e at);
          everywhere = λ d₂ f₂ g. ground (arith, file_at-delete d d₂ n name k, s.everywhere d₂ f₂);
        }
    | inr differs ↦ delete_other-IsSound d n k differs s
  ]
