-- ===== src/Eks/Sync/VpcCni.antt =====
-- eks/sync.go: the manifest of the VPC CNI plugin.
use Prim.Native.String.{◌++◌ as ◌<>◌}
use text.Mathlib.Text.{starts_with}
use kubergrunt.Prelude.{String, str_eq, Option, none, some, List, [], ◌∷◌, if◌then◌else◌}
use kubergrunt.Strings.Bytes.{bytes, replace_all}
use kubergrunt.Cloud.Types.{Text, KubectlOptions}
use kubergrunt.Cloud.Failure.{Error}
use kubergrunt.Cloud.Request.{Call, Env}
use kubergrunt.Cloud.Monad.{M, pure, raise, lift, attempt, ◌>>=◌, ◌>>◌, call}
use kubergrunt.Kubectl.Command.{run_kubectl}

unfoldable pub get_base_url_for_vpc_cni_manifest : String → String
get_base_url_for_vpc_cni_manifest vpc_cni_version =
    ("https://raw.githubusercontent.com/aws/amazon-vpc-cni-k8s/v" <> vpc_cni_version)
    <> "/config/master/"

-- The file of a region that has a manifest of its own.
unfoldable pub manifest_of_region : String → Option String
manifest_of_region region =
    if starts_with region "cn-"
    then some "aws-k8s-cni-cn.yaml"
    else if str_eq region "us-gov-east-1"
    then some "aws-k8s-cni-us-gov-east-1.yaml"
    else if str_eq region "us-gov-west-1"
    then some "aws-k8s-cni-us-gov-west-1.yaml"
    else if str_eq region "us-west-2"
    then some "aws-k8s-cni.yaml"
    else none

unfoldable pub scan_result : Option Error → M (Unit {0})
scan_result none = pure tt
scan_result (some e) = raise e

module _ (env : Env) where
  unfoldable pub write_lines : String → String → List Text → M (Unit {0})
  write_lines fpath region [] = pure tt
  write_lines fpath region (line ∷ lines) = do
    call env (Call.write_line fpath (replace_all line (bytes "us-west-2") (bytes region)))
    write_lines fpath region lines

  unfoldable pub copy_manifest : String → String → String → M (Unit {0})
  copy_manifest url fpath region = do
    body ← call env (Call.http_get url)
    write_lines fpath region body.0
    scan_result body.1

  -- With the deferred close of the file.
  unfoldable pub download_vpc_cni_manifest_and_update_region :
      String → String → String → M (Unit {0})
  download_vpc_cni_manifest_and_update_region url fpath region = do
    call env (Call.create_file fpath)
    copied ← attempt (copy_manifest url fpath region)
    _ ← attempt (call env (Call.close_file fpath))
    lift copied

  unfoldable pub apply_manifest : KubectlOptions → String → M (Unit {0})
  apply_manifest options manifest_path =
      run_kubectl env options ("apply" ∷ "-f" ∷ manifest_path ∷ [])

  unfoldable pub download_and_apply : KubectlOptions → String → String → String → M (Unit {0})
  download_and_apply options region base_url manifest_path = do
    download_vpc_cni_manifest_and_update_region (base_url <> "aws-k8s-cni.yaml") manifest_path
        region
    apply_manifest options manifest_path

  -- The manifest of another region, with the deferred removal of the directory.
  unfoldable pub apply_for_region : KubectlOptions → String → String → M (Unit {0})
  apply_for_region options region base_url = do
    working_dir ← call env (Call.temp_dir "kubergrunt-sync")
    applied ← attempt (
        download_and_apply options region base_url
          (env.path_join (working_dir ∷ "aws-k8s-cni.yaml" ∷ [])))
    _ ← attempt (call env (Call.remove_all working_dir))
    lift applied

  unfoldable pub apply_by_region : KubectlOptions → String → String → Option String → M (Unit {0})
  apply_by_region options region base_url none = apply_for_region options region base_url
  apply_by_region options region base_url (some manifest) =
      apply_manifest options (base_url <> manifest)

  unfoldable pub update_vpc_cni : KubectlOptions → String → String → M (Unit {0})
  update_vpc_cni options region vpc_cni_version =
      apply_by_region options region (get_base_url_for_vpc_cni_manifest vpc_cni_version)
        (manifest_of_region region)
