-- ===== src/Mpfd/Field/Accept.antt =====
-- `Field::AcceptSomeData` (src/MPFDParser/Field.cc): its ends, and the fields it writes.
use libnavajo.Base.{
  ℕ, ◌+◌, ◌≡◌, ◌≢◌, refl, inl, inr, Bool, Option, none, some, ltb, ◌==◌, Bytes, length, Bool-cases,
  arith,
}
use libnavajo.Mpfd.Exceptions.{Run, returns, Ends}
use libnavajo.Mpfd.TempFiles.Search.{first_free-ne-none}
use libnavajo.Mpfd.TempFiles.{Disk, first_free, temp_path}
use libnavajo.Mpfd.Field.{
  Field, find_temp, accept_in_file, accept_field_data, text_type, file_type, store_in_filesystem,
  append_to,
}

module _ (can_create : Bytes → Bool) where
  -- A run that ends, and keeps the type of the field.
  abbrev pub KeepsType : Field → Run (Field × Disk) (Unit {0}) → Type 0
  KeepsType f = Ends (λ u s. s.0.type ≡ f.type) (λ s. s.0.type ≡ f.type)

  find_temp-KeepsType :
      (f : Field) (disk : Disk) (s : Bytes) (i : Option ℕ)
      → i ≢ none
      → KeepsType f (find_temp can_create f disk s i)
  unfolding find_temp
  find_temp-KeepsType f disk s none h = absurd (h refl)
  find_temp-KeepsType f disk s (some i) h =
      elim (Bool-cases (can_create (temp_path f.temp_dir i))) [
        | inl yes' ↦ rw yes' refl
        | inr no' ↦ rw no' refl
      ]

  accept_in_file-KeepsType :
      (f : Field) (disk : Disk) (s : Bytes) (file : Option Bytes)
      → KeepsType f (accept_in_file can_create f disk s file)
  unfolding accept_in_file
  accept_in_file-KeepsType f disk s none =
      find_temp-KeepsType f disk s (first_free (length disk + 1) f.temp_dir 1 disk)
        (first_free-ne-none f.temp_dir 1 disk)
  accept_in_file-KeepsType f disk s (some w) = refl

  pub accept_field_data-KeepsType :
      (f : Field) (disk : Disk) (s : Bytes) → KeepsType f (accept_field_data can_create s (f, disk))
  unfolding accept_field_data
  accept_field_data-KeepsType f disk s = elim (Bool-cases (f.type == text_type)) [
    | inl a ↦ rw a refl
    | inr a ↦ elim (Bool-cases (f.type == file_type)) [
      | inl b ↦ elim (Bool-cases (f.where_to_store == store_in_filesystem)) [
        | inl c ↦ elim (Bool-cases (ltb 0 (length f.temp_dir))) [
          | inl d ↦ rw (a, b, c, d) (accept_in_file-KeepsType f disk s f.file)
          | inr d ↦ rw (a, b, c, d) refl
        ]
        | inr c ↦ rw (a, b, c) refl
      ]
      | inr b ↦ rw (a, b) refl
    ]
  ]

  -- A text field takes all bytes, whatever it holds, and nothing is written to the disk.
  pub accept_field_data_text :
      (f : Field) (disk : Disk) (s : Bytes)
      → f.type ≡ text_type
      → accept_field_data can_create s (f, disk)
        ≡ returns tt (record f { content = append_to f.content s }, disk)
  unfolding accept_field_data
  accept_field_data_text f disk s h = ground arith
