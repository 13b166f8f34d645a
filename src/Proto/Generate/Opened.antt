-- ===== src/Proto/Generate/Opened.antt =====
-- The files that a run of the generator opens.
use windrpc.Base.{◌≡◌, refl, ap, List, [], ◌∷◌, ◌++◌}
use windrpc.Proto.Generate.{FilePath, Event, make_dirs, open_file, write_file, write_options}

-- the paths that are opened, in order
unfoldable pub opened : List Event → List FilePath
opened [] = []
opened (make_dirs path ∷ es) = opened es
opened (open_file path ∷ es) = path ∷ opened es
opened (write_file path content ∷ es) = opened es
opened (write_options lines ∷ es) = opened es

pub opened-append : (es fs : List Event) → opened (es ++ fs) ≡ opened es ++ opened fs
unfolding opened
opened-append [] fs = refl
opened-append (make_dirs path ∷ es) fs = opened-append es fs
opened-append (open_file path ∷ es) fs = ap (λ l. path ∷ l) (opened-append es fs)
opened-append (write_file path content ∷ es) fs = opened-append es fs
opened-append (write_options lines ∷ es) fs = opened-append es fs
