-- ===== src/Api/Constants.antt =====
-- api/v1alpha1/constants.go: the names that the modelled code uses.
use load_balancer_operator_f.Prelude.{String, ◌⧺◌}

abbrev pub tkg_system_namespace : String
tkg_system_namespace = "tkg-system"

abbrev pub tkg_cluster_name_label : String
tkg_cluster_name_label = "tkg.tanzu.vmware.com/cluster-name"

abbrev pub tkg_cluster_namespace_label : String
tkg_cluster_namespace_label = "tkg.tanzu.vmware.com/cluster-namespace"

abbrev pub tkg_management_cluster_role_label : String
tkg_management_cluster_role_label = "cluster-role.tkg.tanzu.vmware.com/management"

abbrev pub management_cluster_ako_deployment_config : String
management_cluster_ako_deployment_config = "install-ako-for-management-cluster"

abbrev pub workload_cluster_ako_deployment_config : String
workload_cluster_ako_deployment_config = "install-ako-for-all"

abbrev pub cluster_finalizer : String
cluster_finalizer = "ako-operator.networking.tkg.tanzu.vmware.com"

abbrev pub ako_deployment_config_finalizer : String
ako_deployment_config_finalizer = "ako-operator.networking.tkg.tanzu.vmware.com"

abbrev pub ako_preferred_ip_annotation : String
ako_preferred_ip_annotation = "ako.vmware.com/load-balancer-ip"

abbrev pub avi_cluster_label : String
avi_cluster_label = "networking.tkg.tanzu.vmware.com/avi"

abbrev pub avi_resource_cleanup_reason : String
avi_resource_cleanup_reason = "AviResourceCleanup"

abbrev pub avi_resource_cleanup_succeeded_condition : String
avi_resource_cleanup_succeeded_condition = "AviResourceCleanupSucceeded"

abbrev pub avi_user_cleanup_succeeded_condition : String
avi_user_cleanup_succeeded_condition = "AviUserCleanupSucceeded"

abbrev pub pre_terminate_annotation : String
pre_terminate_annotation = "pre-terminate.delete.hook.machine.cluster.x-k8s.io" ⧺ "/avi-cleanup"

abbrev pub ha_service_name : String
ha_service_name = "control-plane"

abbrev pub ha_service_bootstrap_cluster_finalizer : String
ha_service_bootstrap_cluster_finalizer = "ako-operator.networking.tkg.tanzu.vmware.com/ha"

abbrev pub ha_service_annotations_key : String
ha_service_annotations_key = "skipnodeport.ako.vmware.com/enabled"

abbrev pub ha_avi_infra_setting_annotations_key : String
ha_avi_infra_setting_annotations_key = "aviinfrasetting.ako.vmware.com/name"

-- clusterv1.ReadyCondition, of Cluster API
abbrev pub ready_condition : String
ready_condition = "Ready"

abbrev pub tkg_data_value_format_string : String
tkg_data_value_format_string =
    "#@data/values\n#@overlay/match-child-defaults missing_ok=True\n---\n"

abbrev pub avi_namespace : String
avi_namespace = "avi-system"

abbrev pub tkg_addon_annotation_key : String
tkg_addon_annotation_key = "tkg.tanzu.vmware.com/addon-type"

abbrev pub tkg_add_on_label_addon_name_key : String
tkg_add_on_label_addon_name_key = "tkg.tanzu.vmware.com/addon-name"

abbrev pub tkg_add_on_label_cluster_name_key : String
tkg_add_on_label_cluster_name_key = "tkg.tanzu.vmware.com/cluster-name"

abbrev pub tkg_add_on_label_clusterctl_key : String
tkg_add_on_label_clusterctl_key = "clusterctl.cluster.x-k8s.io/move"

abbrev pub tkg_add_on_secret_type : String
tkg_add_on_secret_type = "tkg.tanzu.vmware.com/addon"

abbrev pub tkg_cluster_class_add_on_secret_type : String
tkg_cluster_class_add_on_secret_type = "clusterbootstrap-secret"

abbrev pub tkg_add_on_secret_data_key : String
tkg_add_on_secret_data_key = "values.yaml"

abbrev pub tkg_skip_delete_pkgi_annotation_key : String
tkg_skip_delete_pkgi_annotation_key = "run.tanzu.vmware.com/skip-packageinstall-deletion"

abbrev pub ako_cluster_bootstrap_ref_name_prefix : String
ako_cluster_bootstrap_ref_name_prefix = "load-balancer-and-ingress-service.tanzu.vmware.com"

abbrev pub ako_package_install_name : String
ako_package_install_name = "load-balancer-and-ingress-service"

abbrev pub avi_cluster_delete_config_label : String
avi_cluster_delete_config_label = "networking.tkg.tanzu.vmware.com/avi-config-delete"

abbrev pub cluster_ip_family_validation_succeeded_condition : String
cluster_ip_family_validation_succeeded_condition = "ClusterIpFamilyValidationSucceeded"

abbrev pub avi_credential_name : String
avi_credential_name = "avi-controller-credentials"

abbrev pub avi_ca_name : String
avi_ca_name = "avi-controller-ca"

abbrev pub ako_stateful_set_name : String
ako_stateful_set_name = "ako"
