-- ===== src/Hardware/Memory.antt =====
-- A file system in memory, in which every file exists: a model of the parameter for the examples.
use asense.Base.{if◌then◌else◌, refl, true}
use asense.Base.Text.{Bytes, text_eq}
use asense.Result.{ok}
use asense.Hardware.Sysfs.{Sysfs}
use asense.Hardware.Readable.{Readable}

abbrev pub memory_files : Sysfs
memory_files = record {
  World = Bytes → Bytes;
  read_file = λ path w. (ok (w path), w);
  write_file = λ path text w. (ok tt, λ q. if text_eq q path then text else w q);
  is_file = λ path w. true;
}

abbrev pub memory_readable : Readable memory_files
memory_readable = record {
  contents = λ w. w;
  read_shows = λ path w. refl;
  read_keeps = λ path q w. refl;
  files_keep = λ path q w. refl;
}
