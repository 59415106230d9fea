-- ===== src/Tests/ProviderTests.antt =====
-- pkg/provider at concrete inputs.
use colnk.Common.{◌≡◌, refl, codes, any, ok, err, errno}
use colnk.Common.Paths.{clean, clean_rest}
use colnk.Common.Paths.Components.{IsContained}
use colnk.Provider.RemotePath.{eperm, clean_remote_path, fields, trim_left}
use colnk.Provider.RemotePath.Contained.{clean_remote_path-IsContained}

accepted : clean_remote_path (codes "/a/./b//c\\d") ≡ ok (codes "a/b/c\\d")
unfolding clean_remote_path fields trim_left any clean clean_rest
accepted = refl

refused : clean_remote_path (codes "a\\..\\b") ≡ err (errno eperm)
unfolding clean_remote_path fields trim_left any clean clean_rest
refused = refl

clean_remote_path-IsContained_example : IsContained (codes "a/b/c\\d")
clean_remote_path-IsContained_example =
    clean_remote_path-IsContained (codes "/a/./b//c\\d") (codes "a/b/c\\d") accepted
